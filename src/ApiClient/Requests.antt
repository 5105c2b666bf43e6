-- ===== src/ApiClient/Requests.antt =====
-- The calls of frontend/src/api/client.ts and the request that each of them makes. `encode` is
-- `encodeURIComponent`.
use langgraph_agent.Base.{
  ℕ, String, Option, none, some, List, [], ◌∷◌, ◌<>◌, show, truthy, ◌or◌, if◌then◌else◌,
}
use langgraph_agent.Types.{Json, str, obj, JsonMembers, no_more, member, TaskMode, plan, build}

pub data Method : Type 0 where
  get post put delete : Method

-- `undefined` members are not sent.
pub record CreateTaskRequest : Type 0 where
  pub title : Option String
  pub input : String
  pub mode : Option TaskMode
  pub workspace : Option String
  pub model : Option String

-- One constructor per exported call; the bodies that callers build are JSON already.
pub data ApiCall : Type 0 where
  create_task : CreateTaskRequest → ApiCall
  list_tasks : ℕ → String → ApiCall
  validate_workspace : String → ApiCall
  get_task get_task_snapshot delete_task : String → ApiCall
  delete_workspace_tasks : String → ApiCall
  stop_task : String → ApiCall
  put_mode : String → TaskMode → ApiCall
  get_plan_snapshot : String → ApiCall
  put_plan : String → String → ApiCall
  send_message : String → String → ApiCall
  list_models : ApiCall
  create_model : Json → ApiCall
  update_model : String → Json → ApiCall
  delete_model set_default_model : String → ApiCall
  set_model_key : String → String → ApiCall
  test_model : String → ApiCall
  put_task_model : String → String → Option String → ApiCall
  list_providers : ApiCall
  create_provider : Json → ApiCall
  update_provider : String → Json → ApiCall
  delete_provider : String → ApiCall
  add_provider_model : String → Json → ApiCall
  delete_provider_model : String → String → ApiCall
  discover_provider_models : String → ApiCall
  login_attempt : String → ApiCall
  list_files : String → ApiCall
  preview_file : String → String → ApiCall

pub record Request : Type 0 where
  pub method : Method
  pub path : String
  pub body : Option Json

-- One member of an object that `JSON.stringify` prints, and one that may be `undefined`.
abbrev field : String → String → JsonMembers → JsonMembers
field name text rest = member name (str text) rest

abbrev optional_field : String → Option String → JsonMembers → JsonMembers
optional_field name none rest = rest
optional_field name (some text) rest = field name text rest

unfoldable pub mode_text : TaskMode → String
mode_text plan = "plan"
mode_text build = "build"

abbrev optional_mode : Option TaskMode → Option String
optional_mode none = none
optional_mode (some mode) = some (mode_text mode)

unfoldable pub create_body : CreateTaskRequest → Json
unfolding mode_text
create_body r = obj (
    optional_field "title" r.title (
      field "input" r.input (
        optional_field "mode" (optional_mode r.mode)
          (optional_field "workspace" r.workspace (optional_field "model" r.model no_more)))))

abbrev bare : Method → String → Request
bare method path = record { method = method; path = path; body = none }

abbrev sending : Method → String → Json → Request
sending method path body = record { method = method; path = path; body = some body }

-- `/tasks/${id}` and what follows, with the id put in as it is.
abbrev task_path : String → String → String
task_path id rest = "/tasks/" <> id <> rest

-- `headers`: the token is sent as a bearer token, if there is one.
unfoldable pub headers : Option String → List (String × String)
unfolding ◌<>◌
headers token =
    ("Content-Type", "application/json")
    ∷ (if truthy (token or "") then ("Authorization", "Bearer " <> (token or "")) ∷ [] else [])

module _ (encode : String → String) where
  abbrev encoded_task : String → String → String
  encoded_task id rest = task_path (encode id) rest

  abbrev model_path : String → String → String
  model_path id rest = "/models/" <> encode id <> rest

  abbrev provider_path : String → String → String
  provider_path id rest = "/providers/" <> encode id <> rest

  unfoldable pub request_of : ApiCall → Request
  unfolding ◌<>◌ show create_body mode_text
  request_of (create_task body) = sending post "/tasks" (create_body body)
  request_of (list_tasks limit dir) =
      bare get ("/tasks?limit=" <> show limit <> "&dir=" <> encode dir)
  request_of (validate_workspace path) = bare get ("/workspaces/validate?path=" <> encode path)
  request_of (get_task id) = bare get (task_path id "")
  request_of (get_task_snapshot id) = bare get (encoded_task id "")
  request_of (delete_task id) = bare delete (task_path id "")
  request_of (delete_workspace_tasks dir) = bare delete ("/tasks?dir=" <> encode dir)
  request_of (stop_task id) = bare post (task_path id "/stop")
  request_of (put_mode id mode) =
      sending put (task_path id "/mode") (obj (field "mode" (mode_text mode) no_more))
  request_of (get_plan_snapshot id) = bare get (encoded_task id "/plan")
  request_of (put_plan id text) =
      sending put (task_path id "/plan") (obj (field "text" text no_more))
  request_of (send_message id input) =
      sending post (task_path id "/messages") (obj (field "input" input no_more))
  request_of list_models = bare get "/models"
  request_of (create_model body) = sending post "/models" body
  request_of (update_model id body) = sending put (model_path id "") body
  request_of (delete_model id) = bare delete (model_path id "")
  request_of (set_default_model id) = bare post (model_path id "/default")
  request_of (set_model_key id key) =
      sending put (model_path id "/key") (obj (field "key" key no_more))
  request_of (test_model id) = bare post (model_path id "/test")
  request_of (put_task_model id model provider) =
      sending put (task_path id "/model")
        (obj (field "model" model (optional_field "provider" provider no_more)))
  request_of list_providers = bare get "/providers"
  request_of (create_provider body) = sending post "/providers" body
  request_of (update_provider id body) = sending put (provider_path id "") body
  request_of (delete_provider id) = bare delete (provider_path id "")
  request_of (add_provider_model id body) = sending post (provider_path id "/models") body
  request_of (delete_provider_model id model) =
      bare delete (provider_path id ("/models/" <> encode model))
  request_of (discover_provider_models id) = bare post (provider_path id "/models/discover")
  request_of (login_attempt secret) =
      sending post "/auth/token" (obj (field "token" secret no_more))
  request_of (list_files id) = bare get (encoded_task id "/files")
  request_of (preview_file id path) =
      bare get (task_path id ("/files/preview?path=" <> encode path))
