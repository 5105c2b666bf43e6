-- ===== src/TaskStore/Invariant/Preserved.antt =====
-- Every method of the store keeps the invariant.
use langgraph_agent.Base.{
  ℕ, zero, suc, ◌≤◌, String, true, ◌&&◌, Option, none, some, List, [], ◌∷◌, ◌++◌, length, drop,
  last_n, length-last_n, ◌==◌, ◌≡◌, refl, arith, Bool-cases, Option-cases, inl, inr, ◌or◌, truthy,
  any, eqb, is_some,
}
use langgraph_agent.Types.{Task, SseEvent, Payload, TraceMarker, type_of}
use langgraph_agent.Dict.{Dict, get, put, dict_laws}
use langgraph_agent.ReduceTask.{merge_status_snapshot, merge_snapshot_unless_stale, keeps_reference}
use langgraph_agent.EventLedger.{is_ledger_type}
use langgraph_agent.TaskStore.State.{TaskState}
use langgraph_agent.TaskStore.Drop
use langgraph_agent.TaskStore.Detail
use langgraph_agent.TaskStore.Detail.{upserted, status_merged}
use langgraph_agent.TaskStore.Frames
use langgraph_agent.TaskStore.Frames.{
  event_limit, marker_limit, event_task_id, add_marker, next_task, next_detail, next_markers,
  next_events, record_event,
}
use langgraph_agent.TaskStore.Actions.{Action, step, Reachable, start, next}
use langgraph_agent.TaskStore.Identity.{HasId, id-next_task}
use langgraph_agent.TaskStore.Invariant.{
  IsKeyed, EventsBounded, MarkersBounded, IsValid, distinct, ledger_only, put-IsKeyed,
  drop_tasks-IsValid, initial_state-IsValid,
}
use langgraph_agent.TaskStore.Invariant.Markers.{add_marker-distinct}

-- Only the snapshots matter for a method that writes no buffer.
with_detail-IsValid :
    (s t : TaskState)
    → t.events_by_task ≡ s.events_by_task
    → t.markers ≡ s.markers
    → IsKeyed t.detail
    → IsValid s
    → IsValid t
with_detail-IsValid s t e m k v = record {
  keyed = k;
  events = rw e v.events;
  markers = rw m v.markers;
}

pub HasId-get : (s : TaskState) (id : String) → IsKeyed s.detail → HasId id (get s.detail id)
HasId-get s id k = elim (Option-cases (get s.detail id)) [
  | inl absent ↦ rw absent tt
  | inr (t, found) ↦ rw found (k.at_key id t found)
]

pub id-upserted : (prev : Option Task) (task : Task) → (upserted prev task).id ≡ task.id
unfolding upserted merge_snapshot_unless_stale
id-upserted none task = refl
id-upserted (some prev) task = ground arith

pub id-status_merged :
    (prev : Option Task) (task : Task) → HasId task.id prev → (status_merged prev task).id ≡ task.id
unfolding status_merged merge_status_snapshot
id-status_merged none task h = refl
id-status_merged (some prev) task h = h

set_plan_version-IsValid :
    (id : String) (version : ℕ) (s : TaskState)
    → IsValid s
    → IsValid (Detail.set_plan_version id version s)
unfolding Detail.set_plan_version
set_plan_version-IsValid id version s v = elim (Option-cases (get s.detail id)) [
  | inl absent ↦ rw (absent, Detail.set_plan_version) v
  | inr (t, found) ↦
      rw (found, Detail.set_plan_version)
        (elim (Bool-cases (eqb t.plan_version version)) [
          | inl same ↦ rw same v
          | inr other ↦ rw other (
              with_detail-IsValid s _ refl refl
                (put-IsKeyed s.detail id _ (v.keyed.at_key id t found) v.keyed) v)
        ])
]

upsert_task-IsValid :
    (task : Task) (s : TaskState) → IsValid s → IsValid (Detail.upsert_task task s)
unfolding Detail.upsert_task
upsert_task-IsValid task s v = elim (Bool-cases (any (λ t. t.id == task.id) s.tasks)) [
  | inl listed ↦ rw (listed, Detail.upsert_task) (with_detail-IsValid s _ refl refl filed v)
  | inr unlisted ↦ rw (unlisted, Detail.upsert_task) (with_detail-IsValid s _ refl refl filed v)
]
  where
    filed : IsKeyed (put s.detail task.id (upserted (get s.detail task.id) task))
    filed = put-IsKeyed s.detail task.id _ (id-upserted _ task) v.keyed

merge_task_status-IsValid :
    (task : Task) (s : TaskState) → IsValid s → IsValid (Detail.merge_task_status task s)
unfolding Detail.merge_task_status
merge_task_status-IsValid task s v =
    with_detail-IsValid s _ refl refl
      (put-IsKeyed s.detail task.id _ (id-status_merged _ task (HasId-get s task.id v.keyed))
        v.keyed)
      v

ledger_only-append :
    (evs : List SseEvent) (ev : SseEvent)
    → ledger_only evs ≡ true
    → is_ledger_type (type_of ev) ≡ true
    → ledger_only (evs ++ ev ∷ []) ≡ true
ledger_only-append [] ev h l = ground arith
ledger_only-append (e ∷ evs) ev h l = ground (arith, ledger_only-append evs ev)

ledger_only-drop :
    (n : ℕ) (evs : List SseEvent) → ledger_only evs ≡ true → ledger_only (drop n evs) ≡ true
ledger_only-drop zero evs h = h
ledger_only-drop (suc n) [] h = refl
ledger_only-drop (suc n) (e ∷ evs) h = ledger_only-drop n evs (ground arith)

-- What `get d k ?? []` has if every stored list has it.
or_empty :
    {A : Type 0} (P : List A → Type 0) (o : Option (List A))
    → P []
    → ((xs : List A) → o ≡ some xs → P xs)
    → P (o or [])
or_empty P none h k = h
or_empty P (some xs) h k = k xs refl

next_events-Bounded :
    (s : TaskState) (id : String) (ev : SseEvent)
    → is_ledger_type (type_of ev) ≡ true
    → EventsBounded s.events_by_task
    → EventsBounded (next_events s id ev)
unfolding next_events
next_events-Bounded s id ev l b = record {
  few = λ j evs. simp dict_laws (ground (arith, b.few j evs, length-last_n event_limit longer));
  facts = λ j evs. simp dict_laws (ground (arith, b.facts j evs, pure_facts));
}
  where
    longer : List SseEvent
    longer = (get s.events_by_task id or []) ++ ev ∷ []

    pure_facts : ledger_only (last_n event_limit longer) ≡ true
    pure_facts = ledger_only-drop _ longer (
        ledger_only-append _ ev
          (or_empty (λ evs. ledger_only evs ≡ true) (get s.events_by_task id) refl (b.facts id)) l)

put_markers-Bounded :
    (d : Dict (List TraceMarker)) (id : String) (m : TraceMarker)
    → MarkersBounded d
    → MarkersBounded (put d id (add_marker m (get d id or [])))
put_markers-Bounded d id m b = record {
  few = λ j ms. simp dict_laws (ground (arith, b.few j ms, added.1));
  once = λ j ms. simp dict_laws (ground (arith, b.once j ms, added.0));
}
  where
    added :
        (distinct (add_marker m (get d id or [])) ≡ true)
        × (length (add_marker m (get d id or [])) ≤ marker_limit)
    added =
        add_marker-distinct m _ (or_empty (λ ms. distinct ms ≡ true) (get d id) refl (b.once id))

next_markers-Bounded :
    (s : TaskState) (id : String) (ev : SseEvent) (payload : Payload)
    → MarkersBounded s.markers
    → MarkersBounded (next_markers s id ev payload)
unfolding next_markers
next_markers-Bounded s id ev (Payload.context_compressed d) b = put_markers-Bounded s.markers id _ b
next_markers-Bounded s id ev _ b = b

next_detail-IsKeyed :
    (s : TaskState) (ev : SseEvent)
    → IsKeyed s.detail
    → IsKeyed (next_detail s (event_task_id s ev) ev)
unfolding next_detail
next_detail-IsKeyed s ev k =
    elim (Bool-cases (is_some (get s.detail (event_task_id s ev)) && keeps_reference ev.payload)) [
      | inl kept ↦ rw kept k
      | inr changed ↦
          rw changed
            (put-IsKeyed s.detail _ _ (id-next_task s ev (HasId-get s (event_task_id s ev) k)) k)
    ]

apply_event-IsValid :
    (ev : SseEvent) (s : TaskState) → IsValid s → IsValid (Frames.apply_event ev s)
unfolding Frames.apply_event
apply_event-IsValid ev s v =
    elim (Bool-cases (is_ledger_type (type_of ev) && truthy (event_task_id s ev))) [
      | inl filed ↦
          rw (filed, Frames.apply_event)
            (record {
              keyed = next_detail-IsKeyed s ev v.keyed;
              events = next_events-Bounded s _ ev (ground arith) v.events;
              markers = next_markers-Bounded s _ ev ev.payload v.markers;
            })
      | inr ignored ↦ rw (ignored, Frames.apply_event) v
    ]

-- Every method keeps it: each snapshot is filed under its own id, no task has more than 500 events or
-- an event that is a heartbeat, and no task has more than 200 markers or two markers of one frame.
pub step-IsValid : (a : Action) (s : TaskState) → IsValid s → IsValid (step a s)
unfolding step Detail.set_detail_error Drop.remove_task Drop.drop_tasks Drop.remove_workspace_tasks
step-IsValid (Action.set_plan_version id version) s v = set_plan_version-IsValid id version s v
step-IsValid (Action.remove_task id) s v = drop_tasks-IsValid (id ∷ []) s v
step-IsValid (Action.remove_workspace_tasks workspace) s v =
    drop_tasks-IsValid (Drop.workspace_ids workspace s) s v
step-IsValid (Action.upsert_task task) s v = upsert_task-IsValid task s v
step-IsValid (Action.merge_task_status snapshot) s v = merge_task_status-IsValid snapshot s v
step-IsValid (Action.apply_event ev) s v = apply_event-IsValid ev s v
step-IsValid _ s v = record { keyed = v.keyed; events = v.events; markers = v.markers }

-- In every state that the page can reach, whatever is called in whatever order, each snapshot is
-- filed under its own id, no task has more than 500 events or an event that is a heartbeat, and no
-- task has more than 200 markers or two markers of one frame.
pub Reachable-IsValid : (dir : Option String) {s : TaskState} → Reachable dir s → IsValid s
Reachable-IsValid dir start = initial_state-IsValid dir
Reachable-IsValid dir (next {s = s} a r) = step-IsValid a s (Reachable-IsValid dir r)
