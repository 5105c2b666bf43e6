-- ===== src/TaskStore/References.antt =====
-- Where `applyToTask` of reduceTask.ts returns the object that it was given, which taskStore.ts compares.
use langgraph_agent.Base.{
  String, true, not, some, ◌≡◌, refl, arith, Bool-cases, inl, inr, truthy, ◌or◌,
}
use langgraph_agent.Types.{Task, SseEvent, Payload, SubtaskData}
use langgraph_agent.ReduceTask.{
  keeps_reference, apply_payload, apply_to_task, on_frame, on_subtask, SubtaskKind, started,
  returned, broken,
}

on_subtask-unnamed :
    (kind : SubtaskKind) (d : SubtaskData) (task : Task)
    → not (truthy (d.subtask_id or "")) ≡ true
    → on_subtask kind d task ≡ task
on_subtask-unnamed kind d task h = elim (Bool-cases (truthy (d.subtask_id or ""))) [
  | inl named ↦ ground arith
  | inr unnamed ↦ unfold on_subtask in rw unnamed
]

-- Where the code returns the object that it was given, the value is the given one too.
pub on_frame-keeps :
    (payload : Payload) (task : Task)
    → keeps_reference payload ≡ true
    → on_frame payload task ≡ task
unfolding on_frame keeps_reference
on_frame-keeps (Payload.subtask_start d) task h = on_subtask-unnamed started d task h
on_frame-keeps (Payload.subtask_result d) task h = on_subtask-unnamed returned d task h
on_frame-keeps (Payload.subtask_failed d) task h = on_subtask-unnamed broken d task h
on_frame-keeps (Payload.step_start d) task h = cc
on_frame-keeps (Payload.tool_call d) task h = cc
on_frame-keeps (Payload.tool_result d) task h = cc
on_frame-keeps (Payload.final_answer d) task h = cc
on_frame-keeps (Payload.task_failed d) task h = cc
on_frame-keeps Payload.task_interrupted task h = cc
on_frame-keeps Payload.task_resumed task h = cc
on_frame-keeps _ task h = refl

pub apply_to_task-keeps :
    (task : Task) (id : String) (ev : SseEvent)
    → keeps_reference ev.payload ≡ true
    → apply_to_task (some task) id ev ≡ task
unfolding apply_to_task
apply_to_task-keeps task id ev h = keeps ev.payload h
  where
    keeps :
        (payload : Payload)
        → keeps_reference payload ≡ true
        → apply_payload (some task) id ev.task_id payload ≡ task
    keeps (Payload.task_created d) k = unfold apply_payload in refl
    keeps payload k = unfold apply_payload in on_frame-keeps payload task k
