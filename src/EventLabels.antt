-- ===== src/EventLabels.antt =====
-- frontend/src/lib/eventLabels.ts, and `compressFaceParts` of frontend/src/types/index.ts.
use langgraph_agent.Base.{ℕ, String, Option, eqb, ◌or◌, show, ◌<>◌, if◌then◌else◌}
use langgraph_agent.Types.{SseEventType}

-- The delivered types have a Chinese label; `trace_end` falls back to its own name.
unfoldable pub event_label : SseEventType → String
event_label SseEventType.task_created = "任务创建"
event_label SseEventType.task_resumed = "任务续跑"
event_label SseEventType.step_start = "步骤开始"
event_label SseEventType.tool_call = "工具调用"
event_label SseEventType.tool_result = "工具结果"
event_label SseEventType.tool_result_evicted = "结果被驱逐"
event_label SseEventType.context_compressed = "上下文压缩"
event_label SseEventType.final_answer = "最终回答"
event_label SseEventType.task_failed = "任务失败"
event_label SseEventType.task_interrupted = "任务停下"
event_label SseEventType.subtask_start = "子任务开始"
event_label SseEventType.subtask_result = "子任务结果"
event_label SseEventType.subtask_failed = "子任务失败"
event_label SseEventType.heartbeat = "心跳"
event_label SseEventType.trace_end = "trace_end"

-- A count that is absent or 0 is not told.
unfoldable pub compress_face_parts : ℕ → Option ℕ → String
unfolding show ◌<>◌
compress_face_parts dropped band =
    let lost = "丢弃 " <> show dropped <> " 条早期消息" in
    let squeezed = "带内 " <> show (band or 0) <> " 条换成便签" in
    if eqb dropped 0
    then if eqb (band or 0) 0 then "带内无可再挤" else squeezed
    else if eqb (band or 0) 0
    then lost
    else lost <> "、" <> squeezed
