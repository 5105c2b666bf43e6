-- ===== src/ApiClient/Answers.antt =====
-- `reqWithStatus` of frontend/src/api/client.ts and the parsers of the reads that keep the status.
use langgraph_agent.Base.{
  ℕ, String, Bool, false, Option, none, some, List, ◌or◌, ◌>>=◌, if◌then◌else◌,
}
use langgraph_agent.Types.{Json, null}
use langgraph_agent.ApiClient.Json.{member_of, as_array, as_text, as_number, as_bool, is_truthy}
use langgraph_agent.ModelStore.{detail_text}
use langgraph_agent.AuthStore.{LoginData}

-- What `fetch` resolves to; the body is `none` where it is not JSON.
pub record Response : Type 0 where
  pub status : ℕ
  pub json : Option Json

pub record StatusResult (A : Type 0) : Type 0 where
  pub status : ℕ
  pub body : Option A
  pub detail : String

-- `detailText(json)`
unfoldable pub json_detail : Json → String
unfolding detail_text member_of as_text
json_detail json = detail_text {A = Json} (record {
  body = none;
  detail = as_text (member_of "detail" (some json));
  message = as_text (member_of "message" (some json));
})

-- `none` is a `fetch` that rejects. A body that is not JSON is read as `null`.
unfoldable pub req_with_status : {A : Type 0} → (Json → Option A) → Option Response → StatusResult A
unfolding json_detail is_truthy
req_with_status parse none = record { status = 0; body = none; detail = "" }
req_with_status parse (some res) = record {
  status = res.status;
  body = parse (res.json or null);
  detail = if is_truthy res.json then json_detail (res.json or null) else "";
}

-- `json?.data`
abbrev pub data_of : Json → Option Json
data_of json = member_of "data" (some json)

unfoldable pub parse_tasks : Json → Option (List Json)
unfolding member_of as_array
parse_tasks json = as_array (member_of "tasks" (data_of json))

-- The data itself, where the named member of it is a text.
unfoldable pub data_with : String → Json → Option Json
unfolding member_of as_text
data_with key json = elim (as_text (member_of key (data_of json))) [
  | none ↦ none
  | some _ ↦ data_of json
]

unfoldable pub parse_task : Json → Option Json
unfolding data_with
parse_task = data_with "id"

pub record PlanData : Type 0 where
  pub text : String
  pub version : ℕ

unfoldable pub parse_plan : Json → Option PlanData
unfolding member_of as_text as_number
parse_plan json = do
  text ← as_text (member_of "text" (data_of json))
  version ← as_number (member_of "version" (data_of json))
  some (record { text = text; version = version })

unfoldable pub ok_envelope : Json → Option Bool
unfolding member_of as_bool
ok_envelope json = as_bool (member_of "ok" (data_of json))

-- What the client reads of the data: `data.ok === true`, and the token.
unfoldable pub parse_login : Json → Option LoginData
unfolding member_of as_text as_bool
parse_login json = do
  token ← as_text (member_of "token" (data_of json))
  some (record { ok = as_bool (member_of "ok" (data_of json)) or false; token = token })

pub record FilesData : Type 0 where
  pub files : List Json
  pub truncated : Bool

unfoldable pub parse_files : Json → Option FilesData
unfolding member_of as_array is_truthy
parse_files json = do
  files ← as_array (member_of "files" (data_of json))
  some (record { files = files; truncated = is_truthy (member_of "truncated" (data_of json)) })

unfoldable pub parse_preview : Json → Option Json
unfolding data_with
parse_preview = data_with "content"
