-- ===== src/ReduceTask/Order.antt =====
-- The steps of a snapshot stand in the order of their indexes, each index once.
use langgraph_agent.Base.{
  ℕ, ◌<◌, String, false, Option, none, some, List, [], ◌∷◌, ◌++◌, map, any, eqb, ◌≡◌, refl, ◌∙◌,
  arith, Bool-cases, inl, inr, All, any-append,
}
use langgraph_agent.Types.{
  Task, StepRecord, StepStartData, ToolCallRecord, SseEvent, Payload, SubtaskData,
}
use langgraph_agent.ReduceTask.Steps.{
  insert_step, sort_steps, ensure_step, start_step, on_step_start,
}
use langgraph_agent.ReduceTask.Calls.{record_call, update_last, settle_step, steps_or_first}
use langgraph_agent.ReduceTask.Subtasks.{SubtaskKind, started, returned, broken, on_subtask}
use langgraph_agent.ReduceTask.Replay.Starts.{
  any-sort_steps, ensure_step-present, steps-on_step_start, index-start_step,
}
use langgraph_agent.ReduceTask.Apply.{empty_task, on_frame, apply_payload, apply_to_task}

-- Strictly increasing indexes.
abbrev pub InOrder : List StepRecord → Type 0
InOrder [] = Unit {0}
InOrder (s ∷ ts) = All (λ t. s.index < t.index) ts × InOrder ts

-- A change that keeps the indexes keeps the order.
All-index :
    (n : ℕ) (f : StepRecord → StepRecord)
    → ((s : StepRecord) → (f s).index ≡ s.index)
    → (ts : List StepRecord) → All (λ t. n < t.index) ts
    → All (λ t. n < t.index) (map f ts)
All-index n f h [] a = tt
All-index n f h (t ∷ ts) a = (omega (arith, h t), All-index n f h ts a.1)

InOrder-map :
    (f : StepRecord → StepRecord)
    → ((s : StepRecord) → (f s).index ≡ s.index)
    → (ts : List StepRecord) → InOrder ts
    → InOrder (map f ts)
InOrder-map f h [] o = tt
InOrder-map f h (t ∷ ts) o = (rw (h t) (All-index t.index f h ts o.0), InOrder-map f h ts o.1)

-- The new step has an index that no other has.
All-insert_step :
    (n : ℕ) (s : StepRecord) (ts : List StepRecord)
    → n < s.index
    → All (λ t. n < t.index) ts
    → All (λ t. n < t.index) (insert_step s ts)
unfolding insert_step
All-insert_step n s [] h a = (h, tt)
All-insert_step n s (t ∷ ts) h a = ground (arith, All-insert_step n s ts h a.1)

All-below :
    (m n : ℕ) (ts : List StepRecord) → m < n → All (λ t. n < t.index) ts → All (λ t. m < t.index) ts
All-below m n [] h a = tt
All-below m n (t ∷ ts) h a = (omega arith, All-below m n ts h a.1)

InOrder-insert_step :
    (s : StepRecord) (ts : List StepRecord)
    → any (λ t. eqb t.index s.index) ts ≡ false
    → InOrder ts
    → InOrder (insert_step s ts)
unfolding insert_step
InOrder-insert_step s [] h o = (tt, tt)
InOrder-insert_step s (t ∷ ts) h o =
    ground
      (arith, All-below s.index t.index ts, All-insert_step t.index s ts, InOrder-insert_step s ts)

any-above :
    (n : ℕ) (ts : List StepRecord) → All (λ t. n < t.index) ts → any (λ t. eqb t.index n) ts ≡ false
any-above n [] a = refl
any-above n (t ∷ ts) a = ground (arith, any-above n ts a.1)

-- Sorting after a step with a new index was pushed puts it in its place.
InOrder-sort_steps :
    (s : StepRecord) (ts : List StepRecord)
    → any (λ t. eqb t.index s.index) ts ≡ false
    → InOrder ts
    → InOrder (sort_steps (ts ++ s ∷ []))
unfolding sort_steps
InOrder-sort_steps s [] h o = (tt, tt)
InOrder-sort_steps s (t ∷ ts) h o =
    InOrder-insert_step t (sort_steps (ts ++ s ∷ []))
      (any-sort_steps _ (ts ++ s ∷ [])
        ∙ any-append _ ts (s ∷ [])
        ∙ ground (arith, any-above t.index ts o.0))
      (InOrder-sort_steps s ts (ground arith) o.1)

ensure_step-InOrder :
    (task : Task) (i : ℕ) (round : Option ℕ)
    → InOrder task.steps
    → InOrder (ensure_step task i round).steps
ensure_step-InOrder task i round o = elim (Bool-cases (any (λ s. eqb s.index i) task.steps)) [
  | inl old ↦ rw (ensure_step-present task i round old) o
  | inr new ↦ unfold ensure_step in rw new (InOrder-sort_steps _ task.steps new o)
]

on_step_start-InOrder :
    (d : StepStartData) (task : Task) → InOrder task.steps → InOrder (on_step_start d task).steps
on_step_start-InOrder d task o =
    rw (steps-on_step_start d task) (
      InOrder-map (start_step d) (index-start_step d) _
        (ensure_step-InOrder task d.index d.round o))

All-update_last :
    (n : ℕ) (rec : ToolCallRecord) (ts : List StepRecord)
    → All (λ t. n < t.index) ts
    → All (λ t. n < t.index) (update_last (record_call rec) ts)
unfolding update_last record_call
All-update_last n rec [] a = tt
All-update_last n rec (t ∷ []) a = a
All-update_last n rec (t ∷ u ∷ ts) a = (a.0, All-update_last n rec (u ∷ ts) a.1)

InOrder-update_last :
    (rec : ToolCallRecord) (ts : List StepRecord)
    → InOrder ts
    → InOrder (update_last (record_call rec) ts)
unfolding update_last record_call
InOrder-update_last rec [] o = tt
InOrder-update_last rec (t ∷ []) o = o
InOrder-update_last rec (t ∷ u ∷ ts) o =
    (All-update_last t.index rec (u ∷ ts) o.0, InOrder-update_last rec (u ∷ ts) o.1)

InOrder-steps_or_first : (ts : List StepRecord) → InOrder ts → InOrder (steps_or_first ts)
InOrder-steps_or_first [] o = (tt, tt)
InOrder-steps_or_first (t ∷ ts) o = o

index-settle_step : (rec : ToolCallRecord) (s : StepRecord) → (settle_step rec s).index ≡ s.index
unfolding settle_step
index-settle_step rec s = ground arith

steps-on_subtask :
    (kind : SubtaskKind) (d : SubtaskData) (task : Task)
    → (on_subtask kind d task).steps ≡ task.steps
unfolding on_subtask
steps-on_subtask kind d task = ground arith

on_frame-InOrder :
    (payload : Payload) (task : Task) → InOrder task.steps → InOrder (on_frame payload task).steps
unfolding on_frame
on_frame-InOrder (Payload.step_start d) task o = on_step_start-InOrder d task o
on_frame-InOrder (Payload.tool_call rec) task o =
    InOrder-update_last rec _ (InOrder-steps_or_first task.steps o)
on_frame-InOrder (Payload.tool_result rec) task o =
    InOrder-map (settle_step rec) (index-settle_step rec) task.steps o
on_frame-InOrder (Payload.subtask_start d) task o = rw (steps-on_subtask started d task) o
on_frame-InOrder (Payload.subtask_result d) task o = rw (steps-on_subtask returned d task) o
on_frame-InOrder (Payload.subtask_failed d) task o = rw (steps-on_subtask broken d task) o
on_frame-InOrder _ task o = o

-- The steps of a snapshot that may be missing.
abbrev pub steps_of : Option Task → List StepRecord
steps_of none = []
steps_of (some task) = task.steps

apply_payload-InOrder :
    (prev : Option Task) (id : String) (task_id : Option String) (payload : Payload)
    → InOrder (steps_of prev)
    → InOrder (apply_payload prev id task_id payload).steps
unfolding apply_payload
apply_payload-InOrder none id task_id (Payload.task_created d) o = tt
apply_payload-InOrder (some prev) id task_id (Payload.task_created d) o = o
apply_payload-InOrder none id task_id payload o = on_frame-InOrder payload (empty_task id) tt
apply_payload-InOrder (some prev) id task_id payload o = on_frame-InOrder payload prev o

-- If a snapshot's steps have strictly increasing indexes, or there is no snapshot yet, then after any
-- frame they have: a new step is put in its place, and no frame makes a second step of one index.
pub apply_to_task-InOrder :
    (prev : Option Task) (id : String) (ev : SseEvent)
    → InOrder (steps_of prev)
    → InOrder (apply_to_task prev id ev).steps
unfolding apply_to_task
apply_to_task-InOrder prev id ev o = apply_payload-InOrder prev id ev.task_id ev.payload o
