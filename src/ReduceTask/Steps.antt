-- ===== src/ReduceTask/Steps.antt =====
-- `makeStep`, `ensureStep` and the `step_start` frame of reduceTask.ts.
use langgraph_agent.Base.{
  ℕ, Option, List, [], ◌∷◌, ◌++◌, map, any, eqb, leb, if◌then◌else◌, ◌or◌, or_else,
}
use langgraph_agent.Types.{Task, StepRecord, StepStartData}

unfoldable pub make_step : ℕ → Option ℕ → StepRecord
make_step i round = record {
  index = i;
  round = round;
  thought = "";
  tool_calls = [];
  status = "running";
}

-- `sort((a, b) => a.index - b.index)` is stable: a step goes before the first one that is not less.
unfoldable pub insert_step : StepRecord → List StepRecord → List StepRecord
insert_step s [] = s ∷ []
insert_step s (t ∷ ts) = if leb s.index t.index then s ∷ t ∷ ts else t ∷ insert_step s ts

unfoldable pub sort_steps : List StepRecord → List StepRecord
unfolding insert_step
sort_steps [] = []
sort_steps (s ∷ ts) = insert_step s (sort_steps ts)

unfoldable pub ensure_step : Task → ℕ → Option ℕ → Task
unfolding make_step
ensure_step task i round =
    if any (λ s. eqb s.index i) task.steps
    then task
    else record task { steps = sort_steps (task.steps ++ make_step i round ∷ []) }

unfoldable pub start_step : StepStartData → StepRecord → StepRecord
start_step d s =
    if eqb s.index d.index
    then record s {
      round = or_else d.round s.round;
      thought = d.thought or s.thought;
      status = "running";
    }
    else s

unfoldable pub on_step_start : StepStartData → Task → Task
unfolding ensure_step start_step
on_step_start d task =
    let t = ensure_step task d.index d.round in record t { steps = map (start_step d) t.steps }
