-- ===== src/FailureStates/Lists.antt =====
-- frontend/src/lib/failureStates.ts, lines 13 to 88 and 216 to 255: the history list, the file pane
-- and the login page.
use langgraph_agent.Base.{
  ℕ, String, Bool, true, false, not, ◌&&◌, Option, none, some, List, eqb, leb, ltb, truthy, show,
  ◌<>◌, if◌then◌else◌,
}
use langgraph_agent.Types.{Task}

pub data HistoryListState : Type 0 where
  error loading empty rows : HistoryListState

pub record HistoryInput : Type 0 where
  pub error : String
  pub loading : Bool
  pub rows : ℕ
  pub visible : ℕ

-- A status between 200 and 299.
abbrev pub is_success : ℕ → Bool
is_success status = leb 200 status && ltb status 300

unfoldable pub history_list_state : HistoryInput → HistoryListState
history_list_state input =
    if eqb input.rows 0
    then if truthy input.error then error else if input.loading then loading else empty
    else if eqb input.visible 0
    then empty
    else rows

abbrev is_error_face : HistoryListState → Bool
is_error_face error = true
is_error_face _ = false

unfoldable pub list_banner_visible : String → HistoryListState → Bool
list_banner_visible text state = truthy text && not (is_error_face state)

unfoldable pub list_empty_title : ℕ → String
list_empty_title count = if ltb 0 count then "没有匹配的任务" else "这里还没有任务"

pub data ListLoadOutcome : Type 0 where
  loaded : List Task → ListLoadOutcome
  failed_load : String → Bool → ListLoadOutcome

unfoldable pub list_load_failure : ℕ → String
unfolding show ◌<>◌
list_load_failure status =
    if eqb status 0
    then "无法连接后台；确认服务在运行后再试。"
    else if eqb status 401
    then "登录已失效；重新登录后再试。"
    else if is_success status
    then "任务列表响应异常；请重试。"
    else "任务列表读取失败（HTTP " <> show status <> "）。"

unfoldable pub list_load_outcome : ℕ → Option (List Task) → ListLoadOutcome
unfolding list_load_failure
list_load_outcome status (some tasks) =
    if is_success status
    then loaded tasks
    else failed_load (list_load_failure status) (eqb status 401)
list_load_outcome status none = failed_load (list_load_failure status) (eqb status 401)

pub data FilesPaneState : Type 0 where
  files_error files_loading files_empty files_rows : FilesPaneState

pub record FilesInput : Type 0 where
  pub error : String
  pub loading : Bool
  pub count : ℕ

unfoldable pub files_pane_state : FilesInput → FilesPaneState
files_pane_state input =
    if ltb 0 input.count
    then files_rows
    else if truthy input.error
    then files_error
    else if input.loading
    then files_loading
    else files_empty

unfoldable pub files_pane_status_text : FilesPaneState → String → String
files_pane_status_text state note = if truthy note then note else ""

pub data LoginOutcome : Type 0 where
  logged_in wrong_secret unreachable_backend : LoginOutcome

unfoldable pub login_outcome : ℕ → Bool → LoginOutcome
login_outcome status ok =
    if eqb status 0
    then unreachable_backend
    else if eqb status 401
    then wrong_secret
    else if is_success status && ok
    then logged_in
    else unreachable_backend
