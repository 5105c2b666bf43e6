-- ===== src/ReduceTask/Results.antt =====
-- What `tool_call` and `tool_result` frames of reduceTask.ts record of a call.
use langgraph_agent.Base.{
  String, false, Option, none, some, List, [], ◌∷◌, ◌++◌, map, any, find?, ◌==◌, if◌then◌else◌, ◌≡◌,
  refl, sym, eq_refl, ◌∙◌, arith, Bool-cases, inl, inr, ◌≢◌, eq_iff, or_else,
}
use langgraph_agent.Types.{Task, StepRecord, ToolCallRecord}
use langgraph_agent.ReduceTask.Steps.{make_step}
use langgraph_agent.ReduceTask.Calls.{
  refresh_call, merge_call, put_call, record_call, update_last, on_tool_call, settle_call,
  settle_step, on_tool_result, holds_call, steps_or_first,
}
use langgraph_agent.ReduceTask.Replay.ToolCalls.{
  lem-on_tool_call, put_call-absent, put_call-present, settle_step-holds, settle_step-lacks,
}
use langgraph_agent.ReduceTask.Attribution.{holders, holds_call-make_step}

-- The first call with the id, of a step or of all steps.
abbrev pub call_in : String → List ToolCallRecord → Option ToolCallRecord
call_in id calls = find? (λ tc. tc.id == id) calls

abbrev pub find_call : String → List StepRecord → Option ToolCallRecord
find_call id [] = none
find_call id (s ∷ ts) = or_else (call_in id s.tool_calls) (find_call id ts)

-- What a result writes over a call.
abbrev pub with_result : ToolCallRecord → ToolCallRecord → ToolCallRecord
with_result rec tc = record tc { output = rec.output; status = rec.status; error = rec.error }

abbrev pub result_on : String → ToolCallRecord → Option ToolCallRecord → Option ToolCallRecord
result_on id rec none = none
result_on id rec (some tc) = some (if id == rec.id then with_result rec tc else tc)

call_in-settle_call :
    (id : String) (rec : ToolCallRecord) (calls : List ToolCallRecord)
    → call_in id (map (settle_call rec) calls) ≡ result_on id rec (call_in id calls)
unfolding settle_call
call_in-settle_call id rec [] = refl
call_in-settle_call id rec (tc ∷ calls) = ground (
  arith,
  eq_iff tc.id id,
  eq_iff tc.id rec.id,
  eq_iff id rec.id,
  call_in-settle_call id rec calls,
)

call_in-lacks :
    (id : String) (calls : List ToolCallRecord)
    → any (λ tc. tc.id == id) calls ≡ false
    → call_in id calls ≡ none
call_in-lacks id [] h = refl
call_in-lacks id (tc ∷ calls) h = ground (arith, call_in-lacks id calls)

result_on-lacks :
    (id : String) (rec : ToolCallRecord) (s : StepRecord)
    → holds_call rec.id s ≡ false
    → result_on id rec (call_in id s.tool_calls) ≡ call_in id s.tool_calls
unfolding holds_call
result_on-lacks id rec s h = elim (Bool-cases (id == rec.id)) [
  | inl same ↦ rw ((eq_iff id rec.id).0 same, call_in-lacks rec.id s.tool_calls h)
  | inr other ↦ ground arith
]

call_in-settle_step :
    (id : String) (rec : ToolCallRecord) (s : StepRecord)
    → call_in id (settle_step rec s).tool_calls ≡ result_on id rec (call_in id s.tool_calls)
call_in-settle_step id rec s = elim (Bool-cases (holds_call rec.id s)) [
  | inl has ↦ rw (settle_step-holds rec s has) (call_in-settle_call id rec s.tool_calls)
  | inr lacks ↦ rw (settle_step-lacks rec s lacks) (sym (result_on-lacks id rec s lacks))
]

result_on-or_else :
    (id : String) (rec : ToolCallRecord) (a b : Option ToolCallRecord)
    → or_else (result_on id rec a) (result_on id rec b) ≡ result_on id rec (or_else a b)
result_on-or_else id rec none b = refl
result_on-or_else id rec (some tc) b = refl

find_call-settle :
    (id : String) (rec : ToolCallRecord) (ts : List StepRecord)
    → find_call id (map (settle_step rec) ts) ≡ result_on id rec (find_call id ts)
find_call-settle id rec [] = refl
find_call-settle id rec (s ∷ ts) =
    rw (call_in-settle_step id rec s, find_call-settle id rec ts) (result_on-or_else id rec _ _)

-- Looking up a call by its id after a `tool_result` frame gives what it gave before, with the frame's
-- output, status and error if the id is the frame's: name and input stay, every other call is as it
-- was, and a result whose call no step holds adds nothing.
pub find_call-on_tool_result :
    (id : String) (rec : ToolCallRecord) (task : Task)
    → find_call id (on_tool_result rec task).steps ≡ result_on id rec (find_call id task.steps)
unfolding on_tool_result
find_call-on_tool_result id rec task = find_call-settle id rec task.steps

call_in-last :
    (rec : ToolCallRecord) (calls : List ToolCallRecord)
    → any (λ tc. tc.id == rec.id) calls ≡ false
    → call_in rec.id (calls ++ rec ∷ []) ≡ some rec
call_in-last rec [] h = rw eq_refl
call_in-last rec (tc ∷ calls) h = ground (arith, call_in-last rec calls)

call_in-record_call :
    (rec : ToolCallRecord) (s : StepRecord)
    → holds_call rec.id s ≡ false
    → call_in rec.id (record_call rec s).tool_calls ≡ some rec
unfolding holds_call record_call
call_in-record_call rec s h =
    rw (put_call-absent rec s.tool_calls h) (call_in-last rec s.tool_calls h)

call_in-refresh :
    (rec : ToolCallRecord) (id : String) (calls : List ToolCallRecord)
    → rec.id ≢ id
    → call_in id (map (refresh_call rec) calls) ≡ call_in id calls
unfolding refresh_call merge_call
call_in-refresh rec id [] ne = refl
call_in-refresh rec id (tc ∷ calls) ne =
    ground (
      arith,
      eq_iff tc.id rec.id,
      eq_iff tc.id id,
      eq_iff rec.id id,
      call_in-refresh rec id calls ne,
    )

call_in-append-other :
    (rec : ToolCallRecord) (id : String) (calls : List ToolCallRecord)
    → rec.id ≢ id
    → call_in id (calls ++ rec ∷ []) ≡ call_in id calls
call_in-append-other rec id [] ne = ground (arith, eq_iff rec.id id)
call_in-append-other rec id (tc ∷ calls) ne = ground (arith, call_in-append-other rec id calls ne)

call_in-put_call-other :
    (rec : ToolCallRecord) (id : String) (calls : List ToolCallRecord)
    → rec.id ≢ id
    → call_in id (put_call rec calls) ≡ call_in id calls
call_in-put_call-other rec id calls ne = elim (Bool-cases (any (λ tc. tc.id == rec.id) calls)) [
  | inl old ↦ rw (put_call-present rec calls old) (call_in-refresh rec id calls ne)
  | inr new ↦ rw (put_call-absent rec calls new) (call_in-append-other rec id calls ne)
]

call_in-lacks-step :
    (id : String) (s : StepRecord) → holds_call id s ≡ false → call_in id s.tool_calls ≡ none
unfolding holds_call
call_in-lacks-step id s h = call_in-lacks id s.tool_calls h

find_call-first : (id : String) → find_call id (make_step 1 none ∷ []) ≡ none
unfolding make_step
find_call-first id = refl

find_call-update_last :
    (rec : ToolCallRecord) (s : StepRecord) (ts : List StepRecord)
    → holders rec.id (s ∷ ts) ≡ 0
    → find_call rec.id (update_last (record_call rec) (s ∷ ts)) ≡ some rec
unfolding update_last
find_call-update_last rec s [] h = rw (call_in-record_call rec s (ground arith))
find_call-update_last rec s (t ∷ ts) h =
    rw (call_in-lacks-step rec.id s (ground arith)) (find_call-update_last rec t ts (ground arith))

find_call-update_last-other :
    (rec : ToolCallRecord) (id : String) (ts : List StepRecord)
    → rec.id ≢ id
    → find_call id (update_last (record_call rec) ts) ≡ find_call id ts
unfolding update_last record_call
find_call-update_last-other rec id [] ne = refl
find_call-update_last-other rec id (s ∷ []) ne = rw (call_in-put_call-other rec id s.tool_calls ne)
find_call-update_last-other rec id (s ∷ t ∷ ts) ne =
    rw (find_call-update_last-other rec id (t ∷ ts) ne)

-- A `tool_call` whose id no step holds yet is recorded as it came, and looking up any other id gives
-- what it gave before.
pub find_call-on_tool_call :
    (rec : ToolCallRecord) (task : Task)
    → holders rec.id task.steps ≡ 0
    → (find_call rec.id (on_tool_call rec task).steps ≡ some rec)
      × ((id : String)
          → rec.id ≢ id
          → find_call id (on_tool_call rec task).steps ≡ find_call id task.steps)
find_call-on_tool_call rec task h = rw (lem-on_tool_call rec task) (finds task.steps h)
  where
    finds :
        (ts : List StepRecord)
        → holders rec.id ts ≡ 0
        → (find_call rec.id (update_last (record_call rec) (steps_or_first ts)) ≡ some rec)
          × ((id : String)
              → rec.id ≢ id
              → find_call id (update_last (record_call rec) (steps_or_first ts)) ≡ find_call id ts)
    finds [] none_yet = (
      find_call-update_last rec (make_step 1 none) [] (ground (arith, holds_call-make_step rec.id)),
      λ id ne. find_call-update_last-other rec id (make_step 1 none ∷ []) ne ∙ find_call-first id,
    )
    finds (t ∷ ts) none_yet =
        (find_call-update_last rec t ts none_yet, λ id. find_call-update_last-other rec id (t ∷ ts))
