-- ===== src/Preview.antt =====
-- frontend/src/lib/preview.ts: why a preview failed, and what to do next.
use langgraph_agent.Base.{
  ℕ, String, Bool, ◌||◌, Option, eqb, or_text, ◌or◌, trim, show, ◌<>◌, if◌then◌else◌,
}
use text.Mathlib.Text.{starts_with}

pub record PreviewFailureCopy : Type 0 where
  pub title : String
  pub hint : String

-- `s.includes(t)`
unfoldable pub contains : String → String → Bool
contains String.[] t = starts_with String.[] t
contains (String.◌∷◌ c s) t = starts_with (String.◌∷◌ c s) t || contains s t

unfoldable pub preview_failure : ℕ → Option String → PreviewFailureCopy
unfolding contains trim show ◌<>◌
preview_failure status detail =
    if eqb status 0
    then record { title = "无法连接后台"; hint = "确认服务在运行后重试。" }
    else if eqb status 400
    then record { title = "路径超出任务工作区"; hint = "预览被拒绝；请核对上方路径，再从文件列表重新选择。" }
    else if eqb status 401
    then record { title = "登录已失效"; hint = "重新登录后再试；预览和下载都需要有效登录。" }
    else if eqb status 404
    then if contains (detail or "") "task not found"
      then record { title = "任务不存在"; hint = "任务记录已被删除；返回任务列表。" }
      else record { title = "文件不存在"; hint = "可能已被删除或移动；刷新文件列表后再试。" }
    else if eqb status 409
    then record { title = "任务工作区不存在"; hint = "检查任务目录是否还在；切回存在的目录或新建任务后再试。" }
    else if eqb status 415
    then record { title = "二进制文件无法预览"; hint = "直接下载后用本地应用打开。" }
    else if eqb status 200
    then record { title = "预览响应异常"; hint = "后台返回了无法解析的内容；请重试或直接下载。" }
    else record {
      title = "预览失败（HTTP " <> show status <> "）";
      hint = or_text (trim (detail or "")) "稍后重试，或直接下载。";
    }
