-- ===== src/ReduceTask/Attribution.antt =====
-- Which step a `tool_call` frame of reduceTask.ts lands in.
use langgraph_agent.Base.{
  ℕ, suc, ◌+◌, String, Bool, true, false, none, some, List, [], ◌∷◌, any, last?, ◌==◌,
  if◌then◌else◌, ◌≡◌, refl, ◌∙◌, arith, Bool-cases, inl, inr, ◌≢◌, eq_iff, any-map, any-append,
}
use langgraph_agent.Types.{Task, StepRecord, ToolCallRecord}
use langgraph_agent.ReduceTask.Steps.{make_step}
use langgraph_agent.ReduceTask.Calls.{
  merge_call, refresh_call, put_call, record_call, update_last, on_tool_call, holds_call,
  steps_or_first,
}
use langgraph_agent.ReduceTask.Replay.ToolCalls.{
  any-put_call, put_call-present, put_call-absent, lem-on_tool_call,
}

-- How many steps hold a call with the id.
abbrev pub holders : String → List StepRecord → ℕ
holders id [] = 0
holders id (s ∷ ts) = let rest = holders id ts in if holds_call id s then suc rest else rest

abbrev pub last_holds : String → List StepRecord → Bool
last_holds id ts = elim (last? ts) [ none ↦ false | some s ↦ holds_call id s ]

holds_call-record_call :
    (rec : ToolCallRecord) (s : StepRecord) → holds_call rec.id (record_call rec s) ≡ true
unfolding holds_call record_call
holds_call-record_call rec s = any-put_call rec s.tool_calls

id-refresh_call-other :
    (rec : ToolCallRecord) (id : String) (tc : ToolCallRecord)
    → rec.id ≢ id
    → ((refresh_call rec tc).id == id) ≡ (tc.id == id)
unfolding refresh_call merge_call
id-refresh_call-other rec id tc ne =
    ground (arith, eq_iff rec.id id, eq_iff tc.id rec.id, eq_iff tc.id id)

any-put_call-other :
    (rec : ToolCallRecord) (id : String) (calls : List ToolCallRecord)
    → rec.id ≢ id
    → any (λ tc. tc.id == id) (put_call rec calls) ≡ any (λ tc. tc.id == id) calls
any-put_call-other rec id calls ne = elim (Bool-cases (any (λ tc. tc.id == rec.id) calls)) [
  | inl old ↦
      rw (put_call-present rec calls old)
        (any-map _ (refresh_call rec) (λ tc. id-refresh_call-other rec id tc ne) calls)
  | inr new ↦
      rw (put_call-absent rec calls new) (any-append _ calls _ ∙ ground (arith, eq_iff rec.id id))
]

pub holds_call-record_call-other :
    (rec : ToolCallRecord) (id : String) (s : StepRecord)
    → rec.id ≢ id
    → holds_call id (record_call rec s) ≡ holds_call id s
unfolding holds_call record_call
holds_call-record_call-other rec id s ne = any-put_call-other rec id s.tool_calls ne

pub holds_call-make_step : (id : String) → holds_call id (make_step 1 none) ≡ false
unfolding holds_call make_step
holds_call-make_step id = refl

holders-update_last :
    (rec : ToolCallRecord) (s : StepRecord) (ts : List StepRecord)
    → holders rec.id (update_last (record_call rec) (s ∷ ts)) ≡ (
        if last_holds rec.id (s ∷ ts) then holders rec.id (s ∷ ts) else holders rec.id (s ∷ ts) + 1)
unfolding update_last
holders-update_last rec s [] = ground (arith, holds_call-record_call rec s)
holders-update_last rec s (t ∷ ts) = ground (arith, holders-update_last rec t ts)

holders-update_last-other :
    (rec : ToolCallRecord) (id : String) (ts : List StepRecord)
    → rec.id ≢ id
    → holders id (update_last (record_call rec) ts) ≡ holders id ts
unfolding update_last
holders-update_last-other rec id [] ne = refl
holders-update_last-other rec id (s ∷ []) ne = rw (holds_call-record_call-other rec id s ne)
holders-update_last-other rec id (s ∷ t ∷ ts) ne =
    ground (arith, holders-update_last-other rec id (t ∷ ts) ne)

-- A `tool_call` frame looks at the last step alone. If that step holds the call's id, no step more
-- holds it afterwards; if it does not, one more does, whether or not an earlier step holds the call
-- already. Steps that hold any other id stay as many as they were.
pub holders-on_tool_call :
    (rec : ToolCallRecord) (task : Task)
    → (holders rec.id (on_tool_call rec task).steps ≡ (
        if last_holds rec.id task.steps
        then holders rec.id task.steps
        else holders rec.id task.steps + 1))
      × ((id : String)
          → rec.id ≢ id
          → holders id (on_tool_call rec task).steps ≡ holders id task.steps)
holders-on_tool_call rec task = rw (lem-on_tool_call rec task) (counts task.steps)
  where
    counts :
        (ts : List StepRecord)
        → (holders rec.id (update_last (record_call rec) (steps_or_first ts))
            ≡ (if last_holds rec.id ts then holders rec.id ts else holders rec.id ts + 1))
          × ((id : String)
              → rec.id ≢ id
              → holders id (update_last (record_call rec) (steps_or_first ts)) ≡ holders id ts)
    counts [] = (
      ground (arith, holders-update_last rec (make_step 1 none) [], holds_call-make_step rec.id),
      λ id ne. ground (
        arith,
        holders-update_last-other rec id (make_step 1 none ∷ []) ne,
        holds_call-make_step id,
      ),
    )
    counts (t ∷ ts) =
        (holders-update_last rec t ts, λ id. holders-update_last-other rec id (t ∷ ts))
