-- ===== src/TaskStore/Identity.antt =====
-- A snapshot's id is the key that it is stored under.
use langgraph_agent.Base.{
  String, Option, none, some, List, [], ◌∷◌, find?, ◌==◌, ◌≡◌, refl, ◌∙◌, arith, eq_iff, Bool-cases,
  inl, inr, ◌or◌, or_else,
}
use langgraph_agent.Types.{Task, SseEvent, Payload, SubtaskData}
use langgraph_agent.Dict.{get}
use langgraph_agent.ReduceTask.{
  SubtaskKind, started, returned, broken, on_subtask, empty_task, on_frame, apply_payload,
  apply_to_task,
}
use langgraph_agent.TaskStore.State.{TaskState}
use langgraph_agent.TaskStore.Frames.{event_task_id, next_task}

id-on_subtask :
    (kind : SubtaskKind) (d : SubtaskData) (task : Task) → (on_subtask kind d task).id ≡ task.id
unfolding on_subtask
id-on_subtask kind d task = ground arith

-- No frame changes the id of the snapshot that it is applied to.
pub id-on_frame : (payload : Payload) (task : Task) → (on_frame payload task).id ≡ task.id
unfolding on_frame
id-on_frame (Payload.step_start d) task = ground arith
id-on_frame (Payload.subtask_start d) task = id-on_subtask started d task
id-on_frame (Payload.subtask_result d) task = id-on_subtask returned d task
id-on_frame (Payload.subtask_failed d) task = id-on_subtask broken d task
id-on_frame _ task = refl

abbrev pub HasId : String → Option Task → Type 0
HasId id none = Unit {0}
HasId id (some task) = task.id ≡ id

id-apply_payload :
    (prev : Option Task) (id : String) (task_id : Option String) (payload : Payload)
    → HasId id prev
    → (task_id or id) ≡ id
    → (apply_payload prev id task_id payload).id ≡ id
unfolding apply_payload empty_task
id-apply_payload none id task_id (Payload.task_created d) h e = e
id-apply_payload (some prev) id task_id (Payload.task_created d) h e = h
id-apply_payload none id task_id payload h e = id-on_frame payload (empty_task id)
id-apply_payload (some prev) id task_id payload h e = id-on_frame payload prev ∙ h

HasId-find? : (id : String) (tasks : List Task) → HasId id (find? (λ t. t.id == id) tasks)
HasId-find? id [] = tt
HasId-find? id (t ∷ tasks) = elim (Bool-cases (t.id == id)) [
  | inl same ↦ rw same ((eq_iff t.id id).0 same)
  | inr other ↦ rw other (HasId-find? id tasks)
]

own_id : (s : TaskState) (ev : SseEvent) → (ev.task_id or event_task_id s ev) ≡ event_task_id s ev
unfolding event_task_id
own_id s ev = ground arith

HasId-or_else : (id : String) (a b : Option Task) → HasId id a → HasId id b → HasId id (or_else a b)
HasId-or_else id none b ha hb = hb
HasId-or_else id (some a) b ha hb = ha

-- The snapshot that a frame makes has the id that the frame is filed under.
pub id-next_task :
    (s : TaskState) (ev : SseEvent)
    → HasId (event_task_id s ev) (get s.detail (event_task_id s ev))
    → (next_task s (event_task_id s ev) ev).id ≡ event_task_id s ev
unfolding next_task apply_to_task
id-next_task s ev h =
    id-apply_payload _ _ ev.task_id ev.payload
      (HasId-or_else _ (get s.detail (event_task_id s ev)) _ h (HasId-find? _ s.tasks))
      (own_id s ev)
