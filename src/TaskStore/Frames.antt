-- ===== src/TaskStore/Frames.antt =====
-- `applyEvent` of taskStore.ts. An object's identity is not kept: where the code compares references,
-- `keeps_reference` says when `applyToTask` returns the object that it was given. A row and a
-- snapshot of the same id may be one object; the row is then written with the value that it has.
use langgraph_agent.Base.{
  ℕ, ◌+◌, String, not, ◌&&◌, Option, some, List, [], ◌∷◌, ◌++◌, map, filter, find?, last_n, ◌==◌,
  truthy, ◌or◌, or_else, is_some, if◌then◌else◌,
}
use langgraph_agent.Types.{Task, SseEvent, EventData, Payload, TraceMarker, type_of, same_fact}
use langgraph_agent.Dict.{Dict, get, put}
use langgraph_agent.ReduceTask.{apply_to_task, keeps_reference}
use langgraph_agent.EventLedger.{is_ledger_type}
use langgraph_agent.RequestPlan.{should_bump_list_revision}
use langgraph_agent.TaskStore.State.{TaskState}
use langgraph_agent.TaskStore.Detail.{replace_row}

abbrev pub event_limit : ℕ
event_limit = 500

abbrev pub marker_limit : ℕ
marker_limit = 200

-- `ev.data?.task_id ?? state.currentTaskId`, where an empty id counts as none.
unfoldable pub event_task_id : TaskState → SseEvent → String
event_task_id s ev = or_else ev.task_id s.current_task_id or ""

-- The list's row of a task.
abbrev pub row_of : TaskState → String → Option Task
row_of s id = find? (λ t. t.id == id) s.tasks

-- The snapshot after the frame: a row seeds a missing one.
unfoldable pub next_task : TaskState → String → SseEvent → Task
next_task s id ev = apply_to_task (or_else (get s.detail id) (row_of s id)) id ev

unfoldable pub next_detail : TaskState → String → SseEvent → Dict Task
unfolding next_task
next_detail s id ev =
    if is_some (get s.detail id) && keeps_reference ev.payload
    then s.detail
    else put s.detail id (next_task s id ev)

unfoldable pub next_rows : TaskState → String → SseEvent → List Task
unfolding next_task
next_rows s id ev =
    if is_some (row_of s id) && not (not (is_some (get s.detail id)) && keeps_reference ev.payload)
    then replace_row id (next_task s id ev) s.tasks
    else s.tasks

-- A marker as the frame's `data` that it holds.
abbrev pub marker_data : TraceMarker → EventData
marker_data m = record {
  task_id = m.task_id;
  payload = Payload.context_compressed m.compressed;
  rest = m.rest;
}

unfoldable pub add_marker : TraceMarker → List TraceMarker → List TraceMarker
add_marker marker old =
    last_n marker_limit
      (filter (λ m. not (same_fact (marker_data m) (marker_data marker))) old ++ marker ∷ [])

unfoldable pub next_markers : TaskState → String → SseEvent → Payload → Dict (List TraceMarker)
unfolding add_marker
next_markers s id ev (Payload.context_compressed d) = put s.markers id (
    add_marker (record { ts = ev.ts; compressed = d; task_id = ev.task_id; rest = ev.rest })
      (get s.markers id or []))
next_markers s id ev _ = s.markers

unfoldable pub next_events : TaskState → String → SseEvent → Dict (List SseEvent)
next_events s id ev =
    put s.events_by_task id (last_n event_limit ((get s.events_by_task id or []) ++ ev ∷ []))

unfoldable pub next_revision : TaskState → String → Payload → ℕ
next_revision s id (Payload.task_created d) =
    if should_bump_list_revision (map (λ t. t.id) s.tasks) (some id)
    then s.list_revision + 1
    else s.list_revision
next_revision s id _ = s.list_revision

unfoldable pub record_event : String → SseEvent → TaskState → TaskState
unfolding next_detail next_rows next_markers next_events next_revision
record_event id ev s = record s {
  detail = next_detail s id ev;
  tasks = next_rows s id ev;
  markers = next_markers s id ev ev.payload;
  events_by_task = next_events s id ev;
  list_revision = next_revision s id ev.payload;
}

unfoldable pub apply_event : SseEvent → TaskState → TaskState
unfolding event_task_id record_event
apply_event ev s =
    if is_ledger_type (type_of ev) && truthy (event_task_id s ev)
    then record_event (event_task_id s ev) ev s
    else s
