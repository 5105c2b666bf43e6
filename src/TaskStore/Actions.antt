-- ===== src/TaskStore/Actions.antt =====
-- The methods of taskStore.ts as actions on the state, and runs of them.
use langgraph_agent.Base.{ℕ, ◌+◌, String, Bool, Option, none, List}
use langgraph_agent.Types.{Task, SseEvent}
use langgraph_agent.TaskStore.State.{TaskState, RailFilter, AuthSource, AuthExpired, initial_state}
use langgraph_agent.TaskStore.Drop
use langgraph_agent.TaskStore.Detail
use langgraph_agent.TaskStore.Frames

-- `{ ...authExpired, [source]: expired }`; writing what is there already is no change.
unfoldable pub mark_auth : AuthSource → Bool → AuthExpired → AuthExpired
mark_auth AuthSource.list expired a = record a { list = expired }
mark_auth AuthSource.detail expired a = record a { detail = expired }
mark_auth AuthSource.plan expired a = record a { plan = expired }

-- The old selection belongs to the old directory's history. The page's address is updated too.
unfoldable pub switched : String → TaskState → TaskState
switched dir s = record s {
  workspace_dir = dir;
  current_task_id = none;
  list_revision = s.list_revision + 1;
}

pub data Action : Type 0 where
  set_tasks : List Task → Action
  set_history_filter : RailFilter → Action
  set_settings_open : Bool → Action
  set_list_error : String → Action
  set_list_loading : Bool → Action
  retry_list retry_detail : Action
  set_detail_error : String → String → Action
  set_auth_expired : AuthSource → Bool → Action
  set_plan_version : String → ℕ → Action
  set_current_task : Option String → Action
  remove_task : String → Action
  remove_workspace_tasks : String → Action
  switch_workspace : String → Action
  upsert_task : Task → Action
  merge_task_status : Task → Action
  apply_event : SseEvent → Action

unfoldable pub step : Action → TaskState → TaskState
unfolding mark_auth switched
step (set_tasks tasks) s = record s { tasks = tasks }
step (set_history_filter filter) s = record s { history_filter = filter }
step (set_settings_open open_now) s = record s { settings_open = open_now }
step (set_list_error message) s = record s { list_error = message }
step (set_list_loading loading) s = record s { list_loading = loading }
step retry_list s = record s { list_revision = s.list_revision + 1 }
step retry_detail s = record s { detail_revision = s.detail_revision + 1 }
step (set_detail_error id message) s = Detail.set_detail_error id message s
step (set_auth_expired source expired) s = record s {
  auth_expired = mark_auth source expired s.auth_expired;
}
step (set_plan_version id version) s = Detail.set_plan_version id version s
step (set_current_task id) s = record s { current_task_id = id }
step (remove_task id) s = Drop.remove_task id s
step (remove_workspace_tasks workspace) s = Drop.remove_workspace_tasks workspace s
step (switch_workspace dir) s = switched dir s
step (upsert_task task) s = Detail.upsert_task task s
step (merge_task_status snapshot) s = Detail.merge_task_status snapshot s
step (apply_event ev) s = Frames.apply_event ev s

-- The states that a page can reach, whatever is called.
pub data Reachable (dir : Option String) : TaskState → Type 0 where
  start : Reachable dir (initial_state dir)
  next : {s : TaskState} (a : Action) → Reachable dir s → Reachable dir (step a s)
