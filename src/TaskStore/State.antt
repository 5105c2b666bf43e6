-- ===== src/TaskStore/State.antt =====
-- The state of taskStore.ts and its initial value.
use langgraph_agent.Base.{ℕ, String, Bool, true, false, Option, none, List, [], ◌or◌}
use langgraph_agent.Types.{Task, SseEvent, TraceMarker}
use langgraph_agent.Dict
use langgraph_agent.Dict.{Dict}

pub data RailFilter : Type 0 where
  current all : RailFilter

-- The faces that may answer 401.
pub data AuthSource : Type 0 where
  list detail plan : AuthSource

pub record AuthExpired : Type 0 where
  pub list : Bool
  pub detail : Bool
  pub plan : Bool

pub record TaskState : Type 0 where
  pub tasks : List Task
  pub current_task_id : Option String
  pub detail : Dict Task
  pub events_by_task : Dict (List SseEvent)
  pub markers : Dict (List TraceMarker)
  pub history_filter : RailFilter
  pub workspace_dir : String
  pub settings_open : Bool
  pub list_revision : ℕ
  pub list_error : String
  pub list_loading : Bool
  pub detail_error : Dict String
  pub detail_revision : ℕ
  pub auth_expired : AuthExpired

-- `dir` is what `currentDir()` reads from the page's address.
unfoldable pub initial_state : Option String → TaskState
initial_state dir = record {
  tasks = [];
  current_task_id = none;
  detail = Dict.empty;
  events_by_task = Dict.empty;
  markers = Dict.empty;
  history_filter = current;
  workspace_dir = dir or "";
  settings_open = false;
  list_revision = 0;
  list_error = "";
  list_loading = true;
  detail_error = Dict.empty;
  detail_revision = 0;
  auth_expired = record { list = false; detail = false; plan = false };
}
