-- ===== src/TaskStore/Detail.antt =====
-- `setDetailError`, `setPlanVersion`, `upsertTask` and `mergeTaskStatus` of taskStore.ts.
use langgraph_agent.Base.{
  ℕ, String, Option, none, some, List, map, any, ◌==◌, eqb, truthy, if◌then◌else◌,
}
use langgraph_agent.Types.{Task}
use langgraph_agent.Dict.{get, put, remove}
use langgraph_agent.ReduceTask.{merge_status_snapshot, merge_snapshot_unless_stale}
use langgraph_agent.TaskStore.State.{TaskState}

-- `tasks.map((t) => (t.id === id ? next : t))`
abbrev pub replace_row : String → Task → List Task → List Task
replace_row id next = map (λ t. if t.id == id then next else t)

unfoldable pub set_detail_error : String → String → TaskState → TaskState
set_detail_error id message s = record s {
  detail_error = if truthy message then put s.detail_error id message else remove s.detail_error id;
}

unfoldable pub set_plan_version : String → ℕ → TaskState → TaskState
set_plan_version id version s = elim (get s.detail id) [
  | none ↦ s
  | some prev ↦ if eqb prev.plan_version version then s else record s {
    detail = put s.detail id (record prev { plan_version = version });
    tasks = replace_row id (record prev { plan_version = version }) s.tasks;
  }
]

-- What `upsertTask` stores, given the snapshot that it finds.
unfoldable pub upserted : Option Task → Task → Task
upserted none task = task
upserted (some prev) task = merge_snapshot_unless_stale prev task

-- A task that the list does not hold is not inserted into it.
unfoldable pub upsert_task : Task → TaskState → TaskState
unfolding upserted
upsert_task task s =
    let next = upserted (get s.detail task.id) task in
    if any (λ t. t.id == task.id) s.tasks
    then record s { detail = put s.detail task.id next; tasks = replace_row task.id next s.tasks }
    else record s { detail = put s.detail task.id next }

unfoldable pub status_merged : Option Task → Task → Task
status_merged none snapshot = snapshot
status_merged (some prev) snapshot = merge_status_snapshot prev snapshot

unfoldable pub merge_task_status : Task → TaskState → TaskState
unfolding status_merged
merge_task_status snapshot s =
    let merged = status_merged (get s.detail snapshot.id) snapshot in
    record s {
      detail = put s.detail snapshot.id merged;
      tasks = replace_row snapshot.id merged s.tasks;
    }
