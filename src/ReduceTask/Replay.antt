-- ===== src/ReduceTask/Replay.antt =====
-- The stream delivers frames again after a reconnect: what a second delivery changes.
pub mod Starts
pub mod ToolCalls
pub mod SubtaskFrames
use langgraph_agent.Base.{
  ℕ, String, Bool, true, false, Option, none, some, List, [], ◌∷◌, ◌++◌, map, any, find?, ◌==◌, eqb,
  leb, if◌then◌else◌, ◌≡◌, refl, sym, ◌∙◌, ap, arith, eq_refl, eqb_refl, eq_iff, Bool-cases, inl,
  inr, ◌||◌, ◌or◌, or_else, truthy, any-append, Option-cases, map_idem, any-map, map-none,
  map-append_one,
}
use langgraph_agent.Types.{
  Task, StepRecord, StepStartData, ToolCallRecord, SubTask, SubtaskData, SseEvent, Payload, Member,
  missing, null, value,
}
use langgraph_agent.ReduceTask.Steps.{
  make_step, insert_step, sort_steps, ensure_step, start_step, on_step_start,
}
use langgraph_agent.ReduceTask.Calls.{
  member_or, merge_call, refresh_call, put_call, record_call, update_last, on_tool_call,
  settle_call, settle_step, on_tool_result, holds_call, steps_or_first,
}
use langgraph_agent.ReduceTask.Subtasks.{
  SubtaskKind, started, returned, broken, new_subtask, next_subtask, put_subtask, on_subtask,
}
use langgraph_agent.ReduceTask.Apply.{empty_task, on_frame, apply_payload, apply_to_task}
use langgraph_agent.ReduceTask.Replay.Starts.{on_step_start_idem}
use langgraph_agent.ReduceTask.Replay.ToolCalls.{on_tool_call_idem, on_tool_result_idem}
use langgraph_agent.ReduceTask.Replay.SubtaskFrames.{on_subtask_idem}

on_frame_idem :
    (payload : Payload) (task : Task)
    → on_frame payload (on_frame payload task) ≡ on_frame payload task
unfolding on_frame
on_frame_idem (Payload.step_start d) task = on_step_start_idem d task
on_frame_idem (Payload.tool_call rec) task = on_tool_call_idem rec task
on_frame_idem (Payload.tool_result rec) task = on_tool_result_idem rec task
on_frame_idem (Payload.subtask_start d) task = on_subtask_idem started d task
on_frame_idem (Payload.subtask_result d) task = on_subtask_idem returned d task
on_frame_idem (Payload.subtask_failed d) task = on_subtask_idem broken d task
on_frame_idem (Payload.final_answer answer) task = ground arith
on_frame_idem (Payload.task_failed error) task = ground arith
on_frame_idem _ task = refl

apply_payload_idem :
    (prev : Option Task) (id : String) (task_id : Option String) (payload : Payload)
    → apply_payload (some (apply_payload prev id task_id payload)) id task_id payload
      ≡ apply_payload prev id task_id payload
unfolding apply_payload
apply_payload_idem none id task_id (Payload.task_created d) = refl
apply_payload_idem (some prev) id task_id (Payload.task_created d) = refl
apply_payload_idem prev id task_id payload = on_frame_idem payload (prev or empty_task id)

-- A frame that is delivered twice in a row, whatever its type, leaves the snapshot that its first
-- delivery made, also where that one had to seed the snapshot.
pub apply_to_task_idem :
    (prev : Option Task) (id : String) (ev : SseEvent)
    → apply_to_task (some (apply_to_task prev id ev)) id ev ≡ apply_to_task prev id ev
unfolding apply_to_task
apply_to_task_idem prev id ev = apply_payload_idem prev id ev.task_id ev.payload
