-- ===== src/TraceTab/Counted.antt =====
-- The filters of frontend/src/components/TraceTab.tsx: their counts, their rows, and the rows folded out.
use langgraph_agent.Base.{
  ℕ, suc, ◌+◌, String, Bool, true, false, not, Option, none, some, List, [], ◌∷◌, length, filter,
  All, get_elem?, eqb, eqb_iff, ◌≡◌, refl, sym, ◌∙◌, ap, arith, if◌then◌else◌, Bool-cases, inl, inr,
}
use langgraph_agent.Types.{Json}
use langgraph_agent.TraceTab.Rows.{
  TraceCategory, every, tool, compress, task, type_meta, meta_category, category_of, event_type,
  has_category, TraceRow, indexed, passes, filtered, TraceCounts, count_one, count_of, count_events,
  counts,
}
use langgraph_agent.TraceTab.State.{is_open, toggle_row}

abbrev one_if : Bool → ℕ
one_if true = 1
one_if false = 0

count_of-count_one :
    (f : TraceCategory) (o : Option TraceCategory) (c : TraceCounts)
    → count_of f (count_one o c) ≡ count_of f c + one_if (has_category f o)
count_of-count_one every none c = omega arith
count_of-count_one tool none c = omega arith
count_of-count_one compress none c = omega arith
count_of-count_one task none c = omega arith
count_of-count_one every (some every) c = omega arith
count_of-count_one every (some tool) c = omega arith
count_of-count_one every (some compress) c = omega arith
count_of-count_one every (some task) c = omega arith
count_of-count_one tool (some every) c = omega arith
count_of-count_one tool (some tool) c = omega arith
count_of-count_one tool (some compress) c = omega arith
count_of-count_one tool (some task) c = omega arith
count_of-count_one compress (some every) c = omega arith
count_of-count_one compress (some tool) c = omega arith
count_of-count_one compress (some compress) c = omega arith
count_of-count_one compress (some task) c = omega arith
count_of-count_one task (some every) c = omega arith
count_of-count_one task (some tool) c = omega arith
count_of-count_one task (some compress) c = omega arith
count_of-count_one task (some task) c = omega arith

-- No type has the category of the filter that shows all.
never_every : (t : String) → has_category every (meta_category (type_meta t)) ≡ false
unfolding type_meta
never_every t = ground arith

not_every : (ev : Json) → has_category every (category_of ev) ≡ false
unfolding category_of
not_every ev = never_every (event_type ev)

-- The events of a category, counted apart.
abbrev having : TraceCategory → List Json → ℕ
having f events = length (filter (λ ev. has_category f (category_of ev)) events)

having-cons :
    (f : TraceCategory) (ev : Json) (events : List Json)
    → having f (ev ∷ events) ≡ one_if (has_category f (category_of ev)) + having f events
having-cons f ev events = elim (Bool-cases (has_category f (category_of ev))) [
  | inl has ↦ rw has (omega arith)
  | inr lacks ↦ rw lacks (omega arith)
]

having-every : (events : List Json) → having every events ≡ 0
having-every [] = refl
having-every (ev ∷ events) = rw (not_every ev) (having-every events)

count_of-count_events :
    (f : TraceCategory) (events : List Json) (c : TraceCounts)
    → count_of f (count_events events c) ≡ count_of f c + having f events
unfolding count_events
count_of-count_events f [] c = omega arith
count_of-count_events f (ev ∷ events) c = omega (
  arith,
  count_of-count_events f events (count_one (category_of ev) c),
  count_of-count_one f (category_of ev) c,
  having-cons f ev events,
)

abbrev on_event : (Json → Bool) → TraceRow → Bool
on_event p row = p row.event

length-rows :
    (p : Json → Bool) (i : ℕ) (events : List Json)
    → length (filter (on_event p) (indexed i events)) ≡ length (filter p events)
unfolding indexed
length-rows p i [] = refl
length-rows p i (ev ∷ events) = ground (arith, length-rows p (suc i) events)

length-passes_every : (events : List Json) → length (filter (passes every) events) ≡ length events
length-passes_every [] = refl
length-passes_every (ev ∷ events) = ap suc (length-passes_every events)

abbrev no_counts : List Json → TraceCounts
no_counts events = record {
  all_count = length events;
  tool_count = 0;
  compress_count = 0;
  task_count = 0;
}

counted-passes :
    (f : TraceCategory) (events : List Json)
    → count_of f (no_counts events) + having f events ≡ length (filter (passes f) events)
counted-passes every events = omega (arith, having-every events, length-passes_every events)
counted-passes tool events = omega arith
counted-passes compress events = omega arith
counted-passes task events = omega arith

counts-filtered :
    (f : TraceCategory) (events : List Json)
    → count_of f (counts events) ≡ length (filtered f events)
unfolding counts filtered
counts-filtered f events =
    count_of-count_events f events (no_counts events)
    ∙ counted-passes f events
    ∙ sym (length-rows (passes f) 0 events)

-- The rows under a filter keep the places of their events in the trace.
abbrev pub InPlace : List Json → TraceRow → Type 0
InPlace events row = get_elem? events row.index ≡ some row.event

in_place :
    (p : Json → Bool) (i : ℕ) (events trace : List Json)
    → ((j k : ℕ) → k ≡ i + j → get_elem? trace k ≡ get_elem? events j)
    → All (InPlace trace) (filter (on_event p) (indexed i events))
unfolding indexed
in_place p i [] trace same = tt
in_place p i (ev ∷ events) trace same =
    let later = in_place p (suc i) events trace (λ j k e. same (suc j) k (omega (arith, e))) in
    elim (Bool-cases (p ev)) [
      | inl kept ↦ rw kept (same 0 i (omega arith), later)
      | inr left_out ↦ rw left_out later
    ]

filtered-InPlace :
    (f : TraceCategory) (events : List Json) → All (InPlace events) (filtered f events)
unfolding filtered
filtered-InPlace f events =
    in_place (passes f) 0 events events (λ j k e. ap (get_elem? events) (omega (arith, e)))

-- The number on each filter's button is the number of rows under that filter, and the index of every row
-- is the place that its event has in the whole trace.
pub filtered_lem :
    (f : TraceCategory) (events : List Json)
    → (count_of f (counts events) ≡ length (filtered f events))
      × All (InPlace events) (filtered f events)
filtered_lem f events = (counts-filtered f events, filtered-InPlace f events)

is_open-filter :
    (i j : ℕ) (xs : List ℕ)
    → is_open (filter (λ x. not (eqb x i)) xs) j ≡ (if eqb i j then false else is_open xs j)
is_open-filter i j [] = ground arith
is_open-filter i j (x ∷ xs) = ground (arith, is_open-filter i j xs)

toggle_row_lem :
    (i j : ℕ) (xs : List ℕ)
    → is_open (toggle_row i xs) j ≡ (if eqb i j then not (is_open xs j) else is_open xs j)
unfolding toggle_row
toggle_row_lem i j xs = elim (Bool-cases (eqb i j)) [
  | inl same ↦ ground (arith, is_open-filter i j xs, (eqb_iff i j).0 same, twice)
  | inr other ↦ ground (arith, is_open-filter i j xs)
]
  where
    twice : eqb i j ≡ true → is_open xs i ≡ is_open xs j
    twice same = ap (is_open xs) ((eqb_iff i j).0 same)
