-- ===== src/TaskStore/Drop.antt =====
-- `dropTasks`, `removeTask` and `removeWorkspaceTasks` of taskStore.ts. A set of ids is a list.
use langgraph_agent.Base.{
  ◌+◌, String, not, ◌&&◌, Option, none, some, List, [], ◌∷◌, ◌++◌, map, filter, includes, ◌==◌,
  truthy, if◌then◌else◌,
}
use langgraph_agent.Dict.{remove_all, values}
use langgraph_agent.TaskStore.State.{TaskState}

unfoldable pub keep_selection : List String → Option String → Option String
keep_selection ids none = none
keep_selection ids (some id) = if truthy id && includes ids id then none else some id

unfoldable pub drop_tasks : List String → TaskState → TaskState
unfolding keep_selection
drop_tasks ids s = record s {
  tasks = filter (λ t. not (includes ids t.id)) s.tasks;
  detail = remove_all s.detail ids;
  events_by_task = remove_all s.events_by_task ids;
  markers = remove_all s.markers ids;
  detail_error = remove_all s.detail_error ids;
  current_task_id = keep_selection ids s.current_task_id;
  list_revision = s.list_revision + 1;
}

unfoldable pub remove_task : String → TaskState → TaskState
unfolding drop_tasks
remove_task id = drop_tasks (id ∷ [])

-- The ids of the rows and of the snapshots of one workspace.
unfoldable pub workspace_ids : String → TaskState → List String
workspace_ids workspace s =
    map (λ t. t.id) (filter (λ t. t.workspace == workspace) s.tasks)
    ++ map (λ t. t.id) (filter (λ t. t.workspace == workspace) (values s.detail))

unfoldable pub remove_workspace_tasks : String → TaskState → TaskState
unfolding workspace_ids drop_tasks
remove_workspace_tasks workspace s = drop_tasks (workspace_ids workspace s) s
