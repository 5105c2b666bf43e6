-- ===== src/TaskStore/Isolation.antt =====
-- A frame of one task touches nothing that is kept of another.
use langgraph_agent.Base.{
  String, true, false, ◌&&◌, ◌≡◌, refl, ◌∙◌, arith, eq_iff, Bool-cases, inl, inr, ◌≢◌, truthy,
  is_some,
}
use langgraph_agent.Types.{SseEvent, Payload, type_of, heartbeat}
use langgraph_agent.Dict.{get, get-put}
use langgraph_agent.EventLedger.{is_ledger_type}
use langgraph_agent.ReduceTask.{keeps_reference}
use langgraph_agent.TaskStore.State.{TaskState}
use langgraph_agent.TaskStore.Frames.{
  event_task_id, next_detail, next_markers, next_events, record_event, apply_event,
}

-- What the store keeps of one task: its snapshot, its events, its markers.
pub record SameTask (s t : TaskState) (j : String) : Type 0 where
  pub detail : get s.detail j ≡ get t.detail j
  pub events : get s.events_by_task j ≡ get t.events_by_task j
  pub markers : get s.markers j ≡ get t.markers j
  pub error : get s.detail_error j ≡ get t.detail_error j

next_detail-other :
    (s : TaskState) (id j : String) (ev : SseEvent)
    → id ≢ j
    → get (next_detail s id ev) j ≡ get s.detail j
next_detail-other s id j ev ne =
    elim (Bool-cases (is_some (get s.detail id) && keeps_reference ev.payload)) [
      | inl kept ↦ unfold next_detail in rw kept
      | inr changed ↦
          unfold next_detail in rw changed (get-put s.detail id j _ ∙ ground (arith, eq_iff id j))
    ]

next_markers-other :
    (s : TaskState) (id j : String) (ev : SseEvent) (payload : Payload)
    → id ≢ j
    → get (next_markers s id ev payload) j ≡ get s.markers j
unfolding next_markers
next_markers-other s id j ev (Payload.context_compressed d) ne =
    get-put s.markers id j _ ∙ ground (arith, eq_iff id j)
next_markers-other s id j ev _ ne = refl

record_event-other :
    (id j : String) (ev : SseEvent) (s : TaskState) → id ≢ j → SameTask (record_event id ev s) s j
unfolding record_event
record_event-other id j ev s ne = record {
  detail = next_detail-other s id j ev ne;
  events = unfold next_events in (get-put s.events_by_task id j _ ∙ ground (arith, eq_iff id j));
  markers = next_markers-other s id j ev ev.payload ne;
  error = refl;
}

SameTask-refl : (s : TaskState) (j : String) → SameTask s s j
SameTask-refl s j = record { detail = refl; events = refl; markers = refl; error = refl }

-- A frame that belongs to one task leaves the snapshot, the events, the markers and the load error
-- of every other task as they were.
pub apply_event-other :
    (ev : SseEvent) (s : TaskState) (j : String)
    → event_task_id s ev ≢ j
    → SameTask (apply_event ev s) s j
apply_event-other ev s j ne =
    elim (Bool-cases (is_ledger_type (type_of ev) && truthy (event_task_id s ev))) [
      | inl filed ↦
          unfold apply_event in rw filed (record_event-other (event_task_id s ev) j ev s ne)
      | inr ignored ↦ unfold apply_event in rw ignored (SameTask-refl s j)
    ]

pub apply_event-skips :
    (ev : SseEvent) (s : TaskState)
    → (is_ledger_type (type_of ev) && truthy (event_task_id s ev)) ≡ false
    → apply_event ev s ≡ s
apply_event-skips ev s h = unfold apply_event in rw h

pub apply_event-files :
    (ev : SseEvent) (s : TaskState)
    → (is_ledger_type (type_of ev) && truthy (event_task_id s ev)) ≡ true
    → apply_event ev s ≡ record_event (event_task_id s ev) ev s
apply_event-files ev s h = unfold apply_event in rw h

-- A heartbeat, and a frame that belongs to no task, changes nothing at all in the store.
pub apply_event-ignored :
    (ev : SseEvent) (s : TaskState)
    → (type_of ev ≡ heartbeat → apply_event ev s ≡ s)
      × (event_task_id s ev ≡ "" → apply_event ev s ≡ s)
unfolding is_ledger_type
apply_event-ignored ev s =
    (λ e. apply_event-skips ev s (rw e), λ e. apply_event-skips ev s (rw e (ground arith)))
