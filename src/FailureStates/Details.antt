-- ===== src/FailureStates/Details.antt =====
-- frontend/src/lib/failureStates.ts, lines 100 to 212: a task's snapshot, its plan and its files.
use langgraph_agent.Base.{
  ℕ, String, Bool, Option, eqb, ◌or◌, trim, truthy, show, ◌<>◌, if◌then◌else◌,
}
use langgraph_agent.FailureStates.Lists.{is_success}

pub data DetailLoadState : Type 0 where
  ready absent auth unreachable server bad_response : DetailLoadState

unfoldable pub detail_load_state : ℕ → Bool → DetailLoadState
detail_load_state status has_data =
    if is_success status
    then if has_data then ready else bad_response
    else if eqb status 404
    then absent
    else if eqb status 401
    then auth
    else if eqb status 0
    then unreachable
    else server

unfoldable pub detail_load_failure : DetailLoadState → ℕ → String
unfolding show ◌<>◌
detail_load_failure absent status = "任务不存在或已被删除。"
detail_load_failure auth status = "登录已失效；重新登录后再试。"
detail_load_failure unreachable status = "无法连接后台；确认服务在运行后再试。"
detail_load_failure server status = "服务端出错（HTTP " <> show status <> "）；稍后重试。"
detail_load_failure bad_response status = "任务响应异常；请重试。"
detail_load_failure ready status = ""

pub data PlanLoadState : Type 0 where
  plan_ready plan_error : PlanLoadState

unfoldable pub plan_load_state : ℕ → PlanLoadState
plan_load_state status = if is_success status then plan_ready else plan_error

-- `detail?.trim()`, empty when there is no detail.
abbrev trimmed : Option String → String
trimmed detail = trim (detail or "")

unfoldable pub plan_load_failure : ℕ → Option String → String
unfolding trim show ◌<>◌
plan_load_failure status detail =
    if eqb status 0
    then "无法连接后台；确认服务在运行后重试。"
    else if eqb status 401
    then "登录已失效；重新登录后再试。"
    else if eqb status 404
    then "任务不存在或已被删除。"
    else if eqb status 409
    then if truthy (trimmed detail)
      then "计划文件无法读取：" <> trimmed detail
      else "计划文件无法读取；请稍后重试，若持续失败查看服务端日志。"
    else if is_success status
    then "计划响应异常；请重试。"
    else "计划读取失败（HTTP " <> show status <> "）。"

unfoldable pub files_load_failure : ℕ → Option String → String
unfolding trim show ◌<>◌
files_load_failure status detail =
    if eqb status 0
    then "无法连接后台；确认服务在运行后点「重试」。（切换页签/重新打开任务也会重新加载）"
    else if eqb status 401
    then "登录已失效；重新登录后再点「重试」。"
    else if eqb status 404
    then "任务不存在或已被删除；返回任务列表重新选择。"
    else if eqb status 409
    then "任务工作区不存在；检查任务目录是否还在，或切回存在的目录/新建任务。"
    else if eqb status 400
    then "文件列表请求非法（路径越界或参数错误）；核对任务工作区后点「重试」。"
    else if eqb status 415
    then "响应内容类型不受支持；点「重试」，若持续失败查看服务端日志。"
    else if is_success status
    then "文件列表响应异常；点「重试」。（切换页签/重新打开任务也会重新加载）"
    else "文件列表读取失败（HTTP "
      <> show status
      <> "）"
      <> (if truthy (trimmed detail) then "：" <> trimmed detail else "")
      <> "；点「重试」或查看服务端日志。"
