-- ===== src/ReduceTask/Calls.antt =====
-- The `tool_call` and `tool_result` frames of reduceTask.ts.
use langgraph_agent.Base.{String, Bool, none, List, [], ◌∷◌, ◌++◌, map, any, ◌==◌, if◌then◌else◌}
use langgraph_agent.Types.{Task, StepRecord, ToolCallRecord, Member, missing, null, value}
use langgraph_agent.ReduceTask.Steps.{make_step}

-- A spread member: the later object's, unless it has none.
unfoldable pub member_or : {A : Type 0} → Member A → Member A → Member A
member_or missing old = old
member_or null old = null
member_or (value a) old = value a

-- `{ ...tc, ...rec }`
unfoldable pub merge_call : ToolCallRecord → ToolCallRecord → ToolCallRecord
unfolding member_or
merge_call tc rec = record rec { error = member_or rec.error tc.error }

unfoldable pub refresh_call : ToolCallRecord → ToolCallRecord → ToolCallRecord
unfolding merge_call
refresh_call rec tc = if tc.id == rec.id then merge_call tc rec else tc

unfoldable pub put_call : ToolCallRecord → List ToolCallRecord → List ToolCallRecord
unfolding refresh_call
put_call rec calls =
    if any (λ tc. tc.id == rec.id) calls then map (refresh_call rec) calls else calls ++ rec ∷ []

unfoldable pub record_call : ToolCallRecord → StepRecord → StepRecord
unfolding put_call
record_call rec s = record s { tool_calls = put_call rec s.tool_calls; status = "running" }

-- `steps[steps.length - 1] = f(last)`
unfoldable pub update_last : {A : Type 0} → (A → A) → List A → List A
update_last f [] = []
update_last f (x ∷ []) = f x ∷ []
update_last f (x ∷ y ∷ xs) = x ∷ update_last f (y ∷ xs)

-- `task.steps.length ? [...task.steps] : [makeStep(1)]`
abbrev pub steps_or_first : List StepRecord → List StepRecord
steps_or_first [] = make_step 1 none ∷ []
steps_or_first (s ∷ ts) = s ∷ ts

unfoldable pub on_tool_call : ToolCallRecord → Task → Task
unfolding record_call update_last
on_tool_call rec task = record task {
  steps = update_last (record_call rec) (steps_or_first task.steps);
}

unfoldable pub settle_call : ToolCallRecord → ToolCallRecord → ToolCallRecord
settle_call rec tc =
    if tc.id == rec.id
    then record tc { output = rec.output; status = rec.status; error = rec.error }
    else tc

unfoldable pub holds_call : String → StepRecord → Bool
holds_call id s = any (λ tc. tc.id == id) s.tool_calls

unfoldable pub settle_step : ToolCallRecord → StepRecord → StepRecord
unfolding settle_call holds_call
settle_step rec s =
    if holds_call rec.id s then record s { tool_calls = map (settle_call rec) s.tool_calls } else s

unfoldable pub on_tool_result : ToolCallRecord → Task → Task
unfolding settle_step
on_tool_result rec task = record task { steps = map (settle_step rec) task.steps }
