-- ===== src/EventLedger/Window.antt =====
-- What the event pane shows of the buffer.
use langgraph_agent.Base.{
  ℕ, zero, suc, ◌≤◌, ◌<◌, Bool, true, ◌&&◌, List, [], ◌∷◌, ◌++◌, map, filter, all, length,
  slice_end, length-last_n, reverse, ◌≡◌, refl, ◌∙◌, ap, arith, sort_by-filter, drop, min,
  length-append, all-filter,
}
use mathlib.Core.List.{reverse-cons}
use langgraph_agent.Types.{SseEvent, type_of}
use langgraph_agent.EventLedger.{Entry, is_ledger_type, ledger_events, fill}
use langgraph_agent.EventLedger.Latest.{latest, fill-latest}

map-filter-ev :
    (p : SseEvent → Bool) (m : List Entry)
    → map (λ e. e.ev) (filter (λ e. p e.ev) m) ≡ filter p (map (λ e. e.ev) m)
map-filter-ev p [] = refl
map-filter-ev p (e ∷ m) = ground (arith, map-filter-ev p m)

-- `ledgerEvents` is the newest `limit`, or all for a limit of 0, of the frames that are no heartbeat
-- and that no later frame repeats, newest first.
pub ledger_events-latest :
    (events : List SseEvent) (limit : ℕ)
    → ledger_events events limit
      ≡ reverse (slice_end limit (filter (λ ev. is_ledger_type (type_of ev)) (latest events)))
ledger_events-latest events limit =
    unfold ledger_events in
    ap (λ l. reverse (slice_end limit l))
      (ap (map (λ e. e.ev))
          (sort_by-filter (λ e. e.at) (λ e. is_ledger_type (type_of e.ev)) (fill 0 events []))
        ∙ map-filter-ev (λ ev. is_ledger_type (type_of ev)) _
        ∙ ap (filter (λ ev. is_ledger_type (type_of ev))) (fill-latest events))

length-reverse : (xs : List SseEvent) → length (reverse xs) ≡ length xs
length-reverse [] = refl
length-reverse (x ∷ xs) =
    ap length (reverse-cons x xs)
    ∙ omega (arith, length-append (reverse xs) (x ∷ []), length-reverse xs)

all-append :
    (p : SseEvent → Bool) (xs ys : List SseEvent) → all p (xs ++ ys) ≡ (all p xs && all p ys)
all-append p [] ys = refl
all-append p (x ∷ xs) ys = ground (arith, all-append p xs ys)

all-reverse : (p : SseEvent → Bool) (xs : List SseEvent) → all p (reverse xs) ≡ all p xs
all-reverse p [] = refl
all-reverse p (x ∷ xs) =
    ap (all p) (reverse-cons x xs)
    ∙ all-append p (reverse xs) (x ∷ [])
    ∙ ground (arith, all-reverse p xs)

all-drop :
    (p : SseEvent → Bool) (n : ℕ) (xs : List SseEvent) → all p xs ≡ true → all p (drop n xs) ≡ true
all-drop p zero xs h = h
all-drop p (suc n) [] h = refl
all-drop p (suc n) (x ∷ xs) h = all-drop p n xs (ground arith)

all-slice_end :
    (p : SseEvent → Bool) (n : ℕ) (xs : List SseEvent)
    → all p xs ≡ true
    → all p (slice_end n xs) ≡ true
all-slice_end p zero xs h = h
all-slice_end p (suc n) xs h = all-drop p _ xs h

length-slice_end :
    (n : ℕ) (xs : List SseEvent) → 0 < n → length (slice_end n xs) ≡ min n (length xs)
length-slice_end zero xs h = absurd (omega arith)
length-slice_end (suc n) xs h = length-last_n (suc n) xs

-- With a positive limit the pane lists at most that many frames, and never a heartbeat.
pub ledger_events_bounds :
    (events : List SseEvent) (limit : ℕ)
    → 0 < limit
    → (length (ledger_events events limit) ≤ limit)
      × (all (λ ev. is_ledger_type (type_of ev)) (ledger_events events limit) ≡ true)
ledger_events_bounds events limit h = rw (ledger_events-latest events limit) (
  omega (arith, length-reverse (slice_end limit kept), length-slice_end limit kept h),
  all-reverse _ (slice_end limit kept) ∙ all-slice_end _ limit kept (all-filter _ (latest events)),
)
  where
    kept : List SseEvent
    kept = filter (λ ev. is_ledger_type (type_of ev)) (latest events)
