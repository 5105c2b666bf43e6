-- ===== src/ReduceTask/Replay/Starts.antt =====
-- A second `step_start` of the same step.
use langgraph_agent.Base.{
  ℕ, Bool, true, Option, List, [], ◌∷◌, map, any, eqb, ◌≡◌, refl, ◌∙◌, ap, arith, eqb_refl,
  Bool-cases, inl, inr, ◌||◌, any-append, map_idem, any-map,
}
use langgraph_agent.Types.{Task, StepRecord, StepStartData}
use langgraph_agent.ReduceTask.Steps.{
  insert_step, sort_steps, ensure_step, start_step, on_step_start,
}

any-insert_step :
    (p : StepRecord → Bool) (s : StepRecord) (ts : List StepRecord)
    → any p (insert_step s ts) ≡ (p s || any p ts)
unfolding insert_step
any-insert_step p s [] = refl
any-insert_step p s (t ∷ ts) = ground (arith, any-insert_step p s ts)

pub any-sort_steps :
    (p : StepRecord → Bool) (ts : List StepRecord) → any p (sort_steps ts) ≡ any p ts
unfolding sort_steps
any-sort_steps p [] = refl
any-sort_steps p (t ∷ ts) =
    any-insert_step p t (sort_steps ts) ∙ ap (λ b. p t || b) (any-sort_steps p ts)

-- After `ensureStep` there is a step with the index.
pub any-ensure_step :
    (task : Task) (i : ℕ) (round : Option ℕ)
    → any (λ s. eqb s.index i) (ensure_step task i round).steps ≡ true
unfolding ensure_step
any-ensure_step task i round = elim (Bool-cases (any (λ s. eqb s.index i) task.steps)) [
  | inl old ↦ rw old old
  | inr new ↦ rw new (any-sort_steps _ _ ∙ any-append _ task.steps _ ∙ rw (new, eqb_refl i))
]

start_step_idem :
    (d : StepStartData) (s : StepRecord) → start_step d (start_step d s) ≡ start_step d s
unfolding start_step
start_step_idem d s = ground arith

pub index-start_step : (d : StepStartData) (s : StepRecord) → (start_step d s).index ≡ s.index
unfolding start_step
index-start_step d s = ground arith

pub ensure_step-present :
    (task : Task) (i : ℕ) (round : Option ℕ)
    → any (λ s. eqb s.index i) task.steps ≡ true
    → ensure_step task i round ≡ task
unfolding ensure_step
ensure_step-present task i round h = rw h

pub steps-on_step_start :
    (d : StepStartData) (task : Task)
    → (on_step_start d task).steps ≡ map (start_step d) (ensure_step task d.index d.round).steps
unfolding on_step_start
steps-on_step_start d task = refl

on_step_start-present :
    (d : StepStartData) (task : Task)
    → any (λ s. eqb s.index d.index) task.steps ≡ true
    → on_step_start d task ≡ record task { steps = map (start_step d) task.steps }
unfolding on_step_start
on_step_start-present d task h = rw h

-- After a `step_start` there is a step with its index.
pub any-on_step_start :
    (d : StepStartData) (task : Task)
    → any (λ s. eqb s.index d.index) (on_step_start d task).steps ≡ true
any-on_step_start d task = rw (steps-on_step_start d task) (
    any-map _ (start_step d) (λ s. ap (λ k. eqb k d.index) (index-start_step d s)) _
    ∙ any-ensure_step task d.index d.round)

pub on_step_start_idem :
    (d : StepStartData) (task : Task)
    → on_step_start d (on_step_start d task) ≡ on_step_start d task
on_step_start_idem d task =
    on_step_start-present d (on_step_start d task) (any-on_step_start d task)
    ∙ (λ i. record (on_step_start d task) { steps = again i })
  where
    again : map (start_step d) (on_step_start d task).steps ≡ (on_step_start d task).steps
    again = rw steps-on_step_start (map_idem (start_step d) (start_step_idem d) _)
