-- ===== src/EventLedger.antt =====
-- frontend/src/lib/eventLedger.ts: which frames the event pane lists.
pub mod Latest
pub mod Window
use langgraph_agent.Base.{
  ℕ, ◌+◌, Bool, true, false, List, [], ◌∷◌, map, filter, slice_end, reverse, if◌then◌else◌, sort_by,
}
use langgraph_agent.Types.{SseEvent, SseEventType, heartbeat, type_of, same_fact}

-- LEDGER_LIMIT
abbrev pub ledger_limit : ℕ
ledger_limit = 100

unfoldable pub is_ledger_type : SseEventType → Bool
is_ledger_type heartbeat = false
is_ledger_type _ = true

-- A value of the `Map`: the frame and its place in the buffer.
pub record Entry : Type 0 where
  pub ev : SseEvent
  pub at : ℕ

-- Whether two frames have one key.
abbrev pub tells : SseEvent → SseEvent → Bool
tells a b = same_fact a.data_of b.data_of

-- `latest.set(key, …)`: a key keeps the place of its first insertion and takes the new value.
pub set_latest : Entry → List Entry → List Entry
set_latest e [] = e ∷ []
set_latest e (x ∷ m) = if tells x.ev e.ev then e ∷ m else x ∷ set_latest e m

-- `events.forEach((ev, at) => …)`
pub fill : ℕ → List SseEvent → List Entry → List Entry
unfolding set_latest
fill at [] m = m
fill at (ev ∷ evs) m = fill (at + 1) evs (set_latest (record { ev = ev; at = at }) m)

unfoldable pub ledger_events : List SseEvent → ℕ → List SseEvent
unfolding fill is_ledger_type sort_by
ledger_events events limit = reverse (
    slice_end limit (
      map (λ e. e.ev)
        (sort_by (λ e. e.at) (filter (λ e. is_ledger_type (type_of e.ev)) (fill 0 events [])))))
