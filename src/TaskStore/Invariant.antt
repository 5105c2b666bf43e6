-- ===== src/TaskStore/Invariant.antt =====
-- What holds in every state of the store that the page can reach.
pub mod Markers
pub mod Preserved
use langgraph_agent.Base.{
  ℕ, ◌≤◌, String, Bool, true, false, not, Option, none, some, List, [], ◌∷◌, ◌++◌, map, any, all,
  filter, length, last_n, drop, length-last_n, ◌==◌, if◌then◌else◌, ◌≡◌, refl, sym, ◌∙◌, ap, arith,
  eq_iff, Bool-cases, inl, inr, ◌or◌, Option-cases,
}
use langgraph_agent.Types.{Task, SseEvent, Payload, TraceMarker, type_of, same_fact}
use langgraph_agent.Dict
use langgraph_agent.Dict.{Dict, get, put, dict_laws, get-put, get-remove_all, get-empty}
use langgraph_agent.ReduceTask.{merge_status_snapshot, merge_snapshot_unless_stale}
use langgraph_agent.EventLedger.{is_ledger_type}
use langgraph_agent.TaskStore.State.{TaskState, initial_state}
use langgraph_agent.TaskStore.Drop.{drop_tasks}
use langgraph_agent.TaskStore.Drop
use langgraph_agent.TaskStore.Detail
use langgraph_agent.TaskStore.Detail.{upserted, status_merged}
use langgraph_agent.TaskStore.Frames
use langgraph_agent.TaskStore.Frames.{
  event_limit, marker_limit, event_task_id, marker_data, add_marker, next_task, next_detail,
  next_markers, next_events, record_event,
}
use langgraph_agent.TaskStore.Actions.{Action, step, Reachable, start, next}
use langgraph_agent.TaskStore.Identity.{HasId, id-next_task}

-- Every snapshot is filed under its own id.
pub record IsKeyed (d : Dict Task) : Type 0 where
  pub at_key : (k : String) (t : Task) → get d k ≡ some t → t.id ≡ k

-- The buffer of a task's events is bounded, and holds no heartbeat.
abbrev pub ledger_only : List SseEvent → Bool
ledger_only = all (λ ev. is_ledger_type (type_of ev))

pub record EventsBounded (d : Dict (List SseEvent)) : Type 0 where
  pub few : (k : String) (evs : List SseEvent) → get d k ≡ some evs → length evs ≤ event_limit
  pub facts : (k : String) (evs : List SseEvent) → get d k ≡ some evs → ledger_only evs ≡ true

-- No two markers hold the same frame.
abbrev pub distinct : List TraceMarker → Bool
distinct [] = true
distinct (m ∷ ms) =
    let rest = distinct ms in
    if any (λ n. same_fact (marker_data n) (marker_data m)) ms then false else rest

pub record MarkersBounded (d : Dict (List TraceMarker)) : Type 0 where
  pub few : (k : String) (ms : List TraceMarker) → get d k ≡ some ms → length ms ≤ marker_limit
  pub once : (k : String) (ms : List TraceMarker) → get d k ≡ some ms → distinct ms ≡ true

pub record IsValid (s : TaskState) : Type 0 where
  pub keyed : IsKeyed s.detail
  pub events : EventsBounded s.events_by_task
  pub markers : MarkersBounded s.markers

-- The empty objects.
pub initial_state-IsValid : (dir : Option String) → IsValid (initial_state dir)
unfolding initial_state
initial_state-IsValid dir = record {
  keyed = record { at_key = λ k t e. cc (get-empty {V = Task} k) };
  events = record {
    few = λ k t e. cc (get-empty {V = List SseEvent} k);
    facts = λ k t e. cc (get-empty {V = List SseEvent} k);
  };
  markers = record {
    few = λ k t e. cc (get-empty {V = List TraceMarker} k);
    once = λ k t e. cc (get-empty {V = List TraceMarker} k);
  };
}

pub put-IsKeyed :
    (d : Dict Task) (k : String) (t : Task) → t.id ≡ k → IsKeyed d → IsKeyed (put d k t)
put-IsKeyed d k t e h = record {
  at_key = λ j u. simp dict_laws (ground (arith, eq_iff k j, h.at_key j u));
}

remove_all-IsKeyed :
    (d : Dict Task) (ids : List String) → IsKeyed d → IsKeyed (Dict.remove_all d ids)
remove_all-IsKeyed d ids h = record {
  at_key = λ j u. simp dict_laws (ground (arith, h.at_key j u));
}

pub drop_tasks-IsValid :
    (ids : List String) (s : TaskState) → IsValid s → IsValid (drop_tasks ids s)
unfolding drop_tasks
drop_tasks-IsValid ids s v = record {
  keyed = remove_all-IsKeyed s.detail ids v.keyed;
  events = record {
    few = λ j u. simp dict_laws (ground (arith, v.events.few j u));
    facts = λ j u. simp dict_laws (ground (arith, v.events.facts j u));
  };
  markers = record {
    few = λ j u. simp dict_laws (ground (arith, v.markers.few j u));
    once = λ j u. simp dict_laws (ground (arith, v.markers.once j u));
  };
}
