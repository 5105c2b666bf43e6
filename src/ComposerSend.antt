-- ===== src/ComposerSend.antt =====
-- frontend/src/hooks/useComposerSend.ts: a draft, and the request that sends it. What is typed or
-- answered between the request and its end is in the state that the end starts from.
pub mod InFlight
use langgraph_agent.Base.{
  String, Bool, true, false, not, ◌&&◌, ◌||◌, Option, none, some, ◌or◌, or_text, trim, truthy,
  is_some, ◌<>◌, if◌then◌else◌,
}
use langgraph_agent.Types.{Task, TaskMode}
use langgraph_agent.TaskStore.{TaskState, Action, step}
use langgraph_agent.ComposerState.{ComposerViewInput, ComposerView, composer_view, cleared_draft}
use langgraph_agent.ModelStore.{Answer, api_error_text}

-- The hook's arguments.
pub record SendOptions : Type 0 where
  pub task : Option Task
  pub current_task_id : Option String
  pub detail_error : String
  pub detail_auth_expired : Bool
  pub draft_mode : TaskMode
  pub draft_model : String
  pub default_model_id : String

-- The hook's state, and the store that it acts on.
pub record SendState : Type 0 where
  pub text : String
  pub busy : Bool
  pub send_error : Option String
  pub store : TaskState

-- `createTask` and `sendMessage`; a member that is `undefined` is not sent.
pub data Request : Type 0 where
  create_task : String → TaskMode → Option String → Option String → Request
  send_message : String → String → Request

-- What the server answers: the new task's id, or the continued task; or no answer.
pub data Reply : Type 0 where
  created : Answer String → Reply
  continued : Answer Task → Reply
  no_reply : Reply

unfoldable pub view_of : SendOptions → SendState → ComposerView
unfolding composer_view
view_of options s = composer_view record {
  task = options.task;
  current_task_id = options.current_task_id;
  detail_error = options.detail_error;
  detail_auth_expired = options.detail_auth_expired;
  text = s.text;
  busy = s.busy;
  send_error = s.send_error;
}

-- `text || undefined`
abbrev optional : String → Option String
optional text = if truthy text then some text else none

-- The request that `onSubmit` makes for its input: none for a task that is not parked, whose input is
-- disabled.
unfoldable pub request_of : SendOptions → SendState → Option Request
unfolding view_of trim
request_of options s = elim options.task [
  | none ↦ some (
      create_task (trim s.text) options.draft_mode (optional s.store.workspace_dir)
        (optional (or_text options.draft_model options.default_model_id)))
  | some task ↦
      if (view_of options s).parked then some (send_message task.id (trim s.text)) else none
]

-- `onSubmit` up to the `await`: nothing, or the request and the state that waits for it.
unfoldable pub submit : SendOptions → SendState → Option (Request × SendState)
unfolding request_of view_of trim
submit options s =
    if not (truthy (trim s.text)) || s.busy || (view_of options s).input_disabled
    then none
    else elim (request_of options s) [
      | none ↦ none
      | some request ↦ some (request, record s { busy = true; send_error = none })
    ]

-- The draft is cleared of what was sent.
abbrev sent : String → SendState → SendState
sent input s = record s { text = cleared_draft s.text input; busy = false }

abbrev refused : String → SendState → SendState
refused message s = record s { send_error = some message; busy = false }

-- `onSubmit` from the answer to its end.
unfoldable pub finish : String → Reply → SendState → SendState
unfolding api_error_text cleared_draft step ◌<>◌
finish input (created answer) s =
    if truthy (answer.body or "")
    then sent input
        (record s { store = step (Action.set_current_task (some (answer.body or ""))) s.store })
    else refused (api_error_text answer) s
finish input (continued answer) s = elim answer.body [
  | none ↦ refused (api_error_text answer) s
  | some task ↦ sent input (record s { store = step (Action.upsert_task task) s.store })
]
finish input no_reply s = refused ("发送失败：" <> "无法连接后台；确认服务在运行后再试。") s
