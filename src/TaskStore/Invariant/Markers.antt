-- ===== src/TaskStore/Invariant/Markers.antt =====
-- The marker list of a task: `kept` and the new marker, cut to the last 200.
use langgraph_agent.Base.{
  ℕ, zero, suc, ◌≤◌, Bool, true, false, not, List, [], ◌∷◌, ◌++◌, any, all, filter, drop, length,
  length-last_n, all-filter, ◌≡◌, refl, arith, any-append,
}
use langgraph_agent.Types.{TraceMarker, EventData, same_fact, same_fact_iff}
use langgraph_agent.TaskStore.Frames.{marker_limit, marker_data, add_marker}
use langgraph_agent.TaskStore.Invariant.{distinct}

abbrev same : TraceMarker → TraceMarker → Bool
same n m = same_fact (marker_data n) (marker_data m)

same_fact_comm : (a b : EventData) → same_fact a b ≡ same_fact b a
same_fact_comm a b = ground (arith, same_fact_iff a b, same_fact_iff b a)

any-filter :
    (q p : TraceMarker → Bool) (ms : List TraceMarker)
    → any q ms ≡ false
    → any q (filter p ms) ≡ false
any-filter q p [] h = refl
any-filter q p (m ∷ ms) h = ground (arith, any-filter q p ms)

distinct-filter :
    (p : TraceMarker → Bool) (ms : List TraceMarker)
    → distinct ms ≡ true
    → distinct (filter p ms) ≡ true
distinct-filter p [] h = refl
distinct-filter p (m ∷ ms) h =
    ground (arith, distinct-filter p ms, any-filter (λ (n : TraceMarker). same n m) p ms)

distinct-drop : (n : ℕ) (ms : List TraceMarker) → distinct ms ≡ true → distinct (drop n ms) ≡ true
distinct-drop zero ms h = h
distinct-drop (suc n) [] h = refl
distinct-drop (suc n) (m ∷ ms) h = distinct-drop n ms (ground arith)

distinct-append :
    (x : TraceMarker) (ms : List TraceMarker)
    → distinct ms ≡ true
    → all (λ m. not (same m x)) ms ≡ true
    → distinct (ms ++ x ∷ []) ≡ true
distinct-append x [] h a = refl
distinct-append x (m ∷ ms) h a = ground (
  arith,
  distinct-append x ms,
  any-append (λ (n : TraceMarker). same n m) ms (x ∷ []),
  same_fact_comm (marker_data x) (marker_data m),
)

-- A marker that arrives replaces an equal one, so the list stays without repetition, and it stays
-- within the limit.
pub add_marker-distinct :
    (m : TraceMarker) (old : List TraceMarker)
    → distinct old ≡ true
    → (distinct (add_marker m old) ≡ true) × (length (add_marker m old) ≤ marker_limit)
unfolding add_marker
add_marker-distinct m old h = (
  distinct-drop _ _
      (distinct-append m _ (distinct-filter _ old h) (all-filter (λ n. not (same n m)) old)),
  omega (arith, length-last_n marker_limit (filter (λ n. not (same n m)) old ++ m ∷ [])),
)
