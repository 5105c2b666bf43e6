-- ===== src/ReduceTask/Subtasks.antt =====
-- The `subtask_start`, `subtask_result` and `subtask_failed` frames of reduceTask.ts.
use langgraph_agent.Base.{
  String, none, some, List, [], ◌∷◌, ◌++◌, map, find?, ◌==◌, if◌then◌else◌, ◌or◌, truthy, or_else,
}
use langgraph_agent.Types.{Task, SubTask, SubtaskData}

-- Which of the three frames it is.
pub data SubtaskKind : Type 0 where
  started returned broken : SubtaskKind

-- The record that a first frame starts from.
unfoldable pub new_subtask : String → SubtaskData → SubTask
new_subtask id d = record {
  subtask_id = id;
  name = d.name or "";
  status = "pending";
  summary = "";
  artifacts = [];
  error = none;
}

unfoldable pub next_subtask : SubtaskKind → SubtaskData → SubTask → SubTask
next_subtask started d base = record base {
  name = d.name or base.name;
  status = d.status or "running";
  summary = "";
  artifacts = [];
  error = none;
}
next_subtask returned d base = record base {
  name = d.name or base.name;
  status = d.status or "completed";
  summary = d.summary or base.summary;
  artifacts = d.artifacts or base.artifacts;
}
next_subtask broken d base = record base {
  name = d.name or base.name;
  status = "failed";
  error = or_else d.error base.error;
}

unfoldable pub put_subtask : SubtaskKind → String → SubtaskData → List SubTask → List SubTask
unfolding new_subtask next_subtask
put_subtask kind id d list = elim (find? (λ s. s.subtask_id == id) list) [
  | none ↦ list ++ next_subtask kind d (new_subtask id d) ∷ []
  | some existing ↦ map (λ s. if s.subtask_id == id then next_subtask kind d existing else s) list
]

-- A frame without a subtask id, or with an empty one, changes nothing.
unfoldable pub on_subtask : SubtaskKind → SubtaskData → Task → Task
unfolding put_subtask
on_subtask kind d task =
    let id = d.subtask_id or "" in
    if truthy id
    then record task { subtasks = some (put_subtask kind id d (task.subtasks or [])) }
    else task
