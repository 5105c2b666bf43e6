-- ===== src/ModelCatalog/Failures.antt =====
-- frontend/src/lib/modelCatalog.ts, lines 369 to 420: what the settings page says of a failure.
use langgraph_agent.Base.{ℕ, String, Bool, eqb, or_text, trim, ◌<>◌, if◌then◌else◌}

abbrev pub backend_unreachable : String
backend_unreachable = "无法连接后台；确认服务在运行后再试。"

unfoldable pub discovery_failure_note : String → String
unfolding trim ◌<>◌
discovery_failure_note detail = or_text (trim detail) "无法连接后台；确认服务在运行后再试。" <> "也可以手动添加模型 ID。"

unfoldable pub model_switch_success : Bool → String
model_switch_success running = if running then "下一轮生效" else "已切换"

unfoldable pub model_switch_failure : String → String
unfolding trim ◌<>◌
model_switch_failure detail =
    "切换失败：" <> or_text (trim detail) "操作失败" <> "；确认 Provider 地址、Key 与协议后重试。"

unfoldable pub provider_delete_failure : ℕ → String → String
unfolding trim ◌<>◌
provider_delete_failure status detail =
    if eqb status 0
    then "删除 Provider 失败：" <> backend_unreachable
    else if eqb status 401
    then "删除 Provider 失败：" <> or_text (trim detail) "登录已失效" <> "；重新登录后再试。"
    else if eqb status 404
    then "Provider 不存在；刷新设置页后再试。"
    else if eqb status 409
    then or_text (trim detail) "删除被拒绝" <> "；该 Provider 下是最后一个模型，或凭据文件不可写；按原因处理后重试。"
    else "删除 Provider 失败：" <> or_text (trim detail) "服务返回错误，稍后重试"

unfoldable pub model_delete_failure : ℕ → String → String
unfolding trim ◌<>◌
model_delete_failure status detail =
    if eqb status 0
    then "删除模型失败：" <> backend_unreachable
    else if eqb status 401
    then "删除模型失败：" <> or_text (trim detail) "登录已失效" <> "；重新登录后再试。"
    else if eqb status 404
    then or_text (trim detail) "模型不存在" <> "；刷新设置页后再试。"
    else if eqb status 409
    then or_text (trim detail) "删除被拒绝" <> "；目录至少要保留一个模型，先给别的 Provider 添加模型。"
    else "删除模型失败：" <> or_text (trim detail) "服务返回错误，稍后重试"
