-- ===== src/PlanPane/State.antt =====
-- The state of frontend/src/components/dash/PlanPane.tsx, lines 45 to 95: its fields, its refs and the
-- store that it writes to.
use langgraph_agent.Base.{ℕ, String, Bool, true, false, Option, none, some}
use langgraph_agent.Types.{Task, TaskStatus}
use langgraph_agent.Dict.{get}
use langgraph_agent.ModelStore.{Answer}
use langgraph_agent.RequestPlan.{next_plan_version}
use langgraph_agent.TaskStore.{TaskState, Action, step}

pub record Conflict : Type 0 where
  pub text : String
  pub version : ℕ

-- `reads` is the number of the load whose effect has not been cleaned up.
pub record PaneState : Type 0 where
  pub task_id : String
  pub text : String
  pub version : ℕ
  pub loaded : String
  pub editing : Bool
  pub busy : Bool
  pub loading : Bool
  pub load_error : String
  pub note : Option String
  pub conflict : Option Conflict
  pub latest_version : ℕ
  pub last_synced_version : ℕ
  pub load_in_flight : Bool
  pub reads : ℕ
  pub store : TaskState

-- What `save` and `doPut` close over: the task, the text and the text as loaded of their render.
pub record Save : Type 0 where
  pub task_id : String
  pub text : String
  pub loaded : String

pub record PutData : Type 0 where
  pub ok : Bool
  pub version : ℕ

-- What `putPlan` resolves to, or no answer.
abbrev pub PutReply : Type 0
PutReply = Option (Answer PutData)

-- `task.plan_version` and `task.status`; a task without a snapshot has no pane.
abbrev pub version_of : Option Task → ℕ
version_of none = 0
version_of (some task) = task.plan_version

abbrev pub status_of : Option Task → Option TaskStatus
status_of none = none
status_of (some task) = some task.status

abbrev pub version_in : TaskState → String → ℕ
version_in s id = version_of (get s.detail id)

abbrev pub status_in : TaskState → String → Option TaskStatus
status_in s id = status_of (get s.detail id)

unfoldable pub initial_pane : String → TaskState → PaneState
initial_pane id store = record {
  task_id = id;
  text = "";
  version = 0;
  loaded = "";
  editing = false;
  busy = false;
  loading = true;
  load_error = "";
  note = none;
  conflict = none;
  latest_version = version_in store id;
  last_synced_version = 0;
  load_in_flight = false;
  reads = 0;
  store = store;
}

-- Every render mirrors the task's version.
unfoldable pub render : PaneState → PaneState
render s = record s { latest_version = version_in s.store s.task_id }

-- `applyVersion(next)` of a render of task `id`.
unfoldable pub apply_version : String → ℕ → PaneState → PaneState
unfolding next_plan_version step
apply_version id next s =
    let merged = next_plan_version s.latest_version next in
    record s {
      latest_version = merged;
      last_synced_version = merged;
      version = merged;
      store = step (Action.set_plan_version id merged) s.store;
    }
