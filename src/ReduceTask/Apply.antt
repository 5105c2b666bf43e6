-- ===== src/ReduceTask/Apply.antt =====
-- `emptyTask` and `applyToTask` of reduceTask.ts.
use langgraph_agent.Base.{
  String, Bool, true, false, Option, none, some, [], ◌or◌, or_else, truthy, not,
}
use langgraph_agent.Types.{
  Task, TaskCreatedData, SseEvent, Payload, pending, running, failed, interrupted, build,
}
use langgraph_agent.ReduceTask.Steps.{on_step_start}
use langgraph_agent.ReduceTask.Calls.{on_tool_call, on_tool_result}
use langgraph_agent.ReduceTask.Subtasks.{started, returned, broken, on_subtask}

unfoldable pub empty_task : String → Task
empty_task id = record {
  id = id;
  title = "";
  user_input = "";
  workspace = "";
  model = "";
  status = pending;
  mode = build;
  steps = [];
  plan_version = 0;
  plan_hash = none;
  conversation = [];
  final_answer = "";
  error = none;
  created_at = "";
  updated_at = "";
  subtasks = some [];
}

-- What a `task_created` frame seeds a missing snapshot with.
unfoldable pub created_task : String → Option String → TaskCreatedData → Task
unfolding empty_task
created_task id task_id d = record (empty_task id) {
  id = task_id or id;
  title = d.title or "";
  status = d.status or pending;
}

-- The `switch` on the other frames.
unfoldable pub on_frame : Payload → Task → Task
unfolding on_step_start on_tool_call on_tool_result on_subtask
on_frame (Payload.step_start d) task = on_step_start d task
on_frame (Payload.tool_call rec) task = on_tool_call rec task
on_frame (Payload.tool_result rec) task = on_tool_result rec task
on_frame (Payload.subtask_start d) task = on_subtask started d task
on_frame (Payload.subtask_result d) task = on_subtask returned d task
on_frame (Payload.subtask_failed d) task = on_subtask broken d task
on_frame (Payload.final_answer answer) task = record task {
  final_answer = answer or task.final_answer;
}
on_frame (Payload.task_failed error) task = record task {
  status = failed;
  error = or_else error task.error;
}
on_frame Payload.task_interrupted task = record task { status = interrupted }
on_frame Payload.task_resumed task = record task { status = running }
on_frame _ task = task

unfoldable pub apply_payload : Option Task → String → Option String → Payload → Task
unfolding created_task on_frame
apply_payload none id task_id (Payload.task_created d) = created_task id task_id d
apply_payload (some prev) id task_id (Payload.task_created d) = prev
apply_payload prev id task_id payload = on_frame payload (prev or empty_task id)

unfoldable pub apply_to_task : Option Task → String → SseEvent → Task
unfolding apply_payload
apply_to_task prev id ev = apply_payload prev id ev.task_id ev.payload

-- Whether `applyToTask` hands back the very object that it was given: `return prev`, and
-- `return task` in the default case and for a subtask frame without an id.
unfoldable pub keeps_reference : Payload → Bool
keeps_reference (Payload.task_created d) = true
keeps_reference (Payload.step_start d) = false
keeps_reference (Payload.tool_call rec) = false
keeps_reference (Payload.tool_result rec) = false
keeps_reference (Payload.subtask_start d) = not (truthy (d.subtask_id or ""))
keeps_reference (Payload.subtask_result d) = not (truthy (d.subtask_id or ""))
keeps_reference (Payload.subtask_failed d) = not (truthy (d.subtask_id or ""))
keeps_reference (Payload.final_answer answer) = false
keeps_reference (Payload.task_failed error) = false
keeps_reference Payload.task_interrupted = false
keeps_reference Payload.task_resumed = false
keeps_reference _ = true
