-- ===== src/MarkerGroups.antt =====
-- frontend/src/lib/markers.ts: the live markers by the step that owns them.
use langgraph_agent.Base.{
  ℕ, Bool, true, not, ◌&&◌, Option, none, some, List, [], ◌∷◌, ◌++◌, filter, any, eqb, eqb_iff,
  if◌then◌else◌, ◌≡◌, refl, ◌∙◌, sym, ap, arith, ◌or◌, Bool-cases, inl, inr, filter-append,
}
use mathlib.Core.List.{append-nil, append_assoc}
use langgraph_agent.Types.{TraceMarker, StepRecord}

-- `Map<number, TraceMarker[]>`, keys in the order of their first insertion.
pub record MarkerGroups : Type 0 where
  pub by_step : List (ℕ × List TraceMarker)
  pub loose : List TraceMarker

pub bucket : ℕ → List (ℕ × List TraceMarker) → Option (List TraceMarker)
bucket k [] = none
bucket k ((j, ms) ∷ m) = if eqb j k then some ms else bucket k m

set_bucket : ℕ → List TraceMarker → List (ℕ × List TraceMarker) → List (ℕ × List TraceMarker)
set_bucket k ms [] = (k, ms) ∷ []
set_bucket k ms ((j, old) ∷ m) = if eqb j k then (j, ms) ∷ m else (j, old) ∷ set_bucket k ms m

-- `indexes.has(index)`
abbrev pub owned : List StepRecord → TraceMarker → Bool
owned steps m = any (λ s. eqb s.index m.compressed.step_index) steps

-- The body of the loop.
unfoldable pub next_group : List StepRecord → TraceMarker → MarkerGroups → MarkerGroups
unfolding bucket set_bucket
next_group steps m g =
    if owned steps m
    then record g {
      by_step =
          set_bucket m.compressed.step_index
            ((bucket m.compressed.step_index g.by_step or []) ++ m ∷ []) g.by_step;
    }
    else record g { loose = g.loose ++ m ∷ [] }

group_from : List StepRecord → List TraceMarker → MarkerGroups → MarkerGroups
unfolding next_group
group_from steps [] g = g
group_from steps (m ∷ ms) g = group_from steps ms (next_group steps m g)

pub group_markers : List TraceMarker → List StepRecord → MarkerGroups
unfolding group_from
group_markers markers steps = group_from steps markers (record { by_step = []; loose = [] })

bucket-set_bucket :
    (k j : ℕ) (ms : List TraceMarker) (m : List (ℕ × List TraceMarker))
    → bucket j (set_bucket k ms m) ≡ (if eqb k j then some ms else bucket j m)
unfolding bucket set_bucket
bucket-set_bucket k j ms [] = refl
bucket-set_bucket k j ms ((i, old) ∷ m) = ground (arith, bucket-set_bucket k j ms m)

-- The markers of one owning step.
abbrev pub of_step : ℕ → List StepRecord → List TraceMarker → List TraceMarker
of_step k steps = filter (λ m. owned steps m && eqb m.compressed.step_index k)

bucket-next_group-mine :
    (steps : List StepRecord) (m : TraceMarker) (g : MarkerGroups) (k : ℕ)
    → owned steps m ≡ true
    → bucket k (next_group steps m g).by_step ≡ (
        if eqb m.compressed.step_index k
        then some ((bucket m.compressed.step_index g.by_step or []) ++ m ∷ [])
        else bucket k g.by_step)
bucket-next_group-mine steps m g k mine =
    unfold next_group in rw mine (bucket-set_bucket m.compressed.step_index k _ g.by_step)

bucket-next_group :
    (steps : List StepRecord) (m : TraceMarker) (g : MarkerGroups) (k : ℕ)
    → (bucket k (next_group steps m g).by_step or [])
      ≡ (bucket k g.by_step or []) ++ of_step k steps (m ∷ [])
bucket-next_group steps m g k = elim (Bool-cases (owned steps m)) [
  | inl mine ↦ rw mine (ours mine)
  | inr other ↦ unfold next_group in rw other (sym (append-nil (bucket k g.by_step or [])))
]
  where
    ours :
        owned steps m ≡ true
        → (bucket k (next_group steps m g).by_step or [])
          ≡ (bucket k g.by_step or []) ++ (if eqb m.compressed.step_index k then m ∷ [] else [])
    ours mine =
        ap (λ o. o or []) (bucket-next_group-mine steps m g k mine)
        ∙ elim (Bool-cases (eqb m.compressed.step_index k)) [
          | inl same ↦ rw (same, (eqb_iff m.compressed.step_index k).0 same)
          | inr other ↦ rw other (sym (append-nil (bucket k g.by_step or [])))
        ]

loose-next_group :
    (steps : List StepRecord) (m : TraceMarker) (g : MarkerGroups)
    → (next_group steps m g).loose ≡ g.loose ++ filter (λ n. not (owned steps n)) (m ∷ [])
loose-next_group steps m g = elim (Bool-cases (owned steps m)) [
  | inl mine ↦ unfold next_group in rw mine (sym (append-nil g.loose))
  | inr other ↦ unfold next_group in rw other
]

group_from_lem :
    (steps : List StepRecord) (ms : List TraceMarker) (g : MarkerGroups) (k : ℕ)
    → ((bucket k (group_from steps ms g).by_step or [])
        ≡ (bucket k g.by_step or []) ++ of_step k steps ms)
      × ((group_from steps ms g).loose ≡ g.loose ++ filter (λ m. not (owned steps m)) ms)
unfolding group_from
group_from_lem steps [] g k =
    (sym (append-nil (bucket k g.by_step or [])), sym (append-nil g.loose))
group_from_lem steps (m ∷ ms) g k =
    let ih = group_from_lem steps ms (next_group steps m g) k in
    (
      ih.0
          ∙ ap (◌++ of_step k steps ms) (bucket-next_group steps m g k)
          ∙ append_assoc (bucket k g.by_step or []) _ _
          ∙ ap ((bucket k g.by_step or []) ++◌) (
              sym
                (filter-append (λ n. owned steps n && eqb n.compressed.step_index k) (m ∷ []) ms)),
      ih.1
          ∙ ap (◌++ filter (λ n. not (owned steps n)) ms) (loose-next_group steps m g)
          ∙ append_assoc g.loose _ _
          ∙ ap (g.loose ++◌) (sym (filter-append (λ n. not (owned steps n)) (m ∷ []) ms)),
    )

-- Every marker is in one place, and the order of arrival is kept: the list of a step's index holds
-- the markers that name it, if the snapshot has such a step, and `loose` holds those whose step the
-- snapshot does not have; no marker is put into another step's list.
pub group_markers_lem :
    (markers : List TraceMarker) (steps : List StepRecord) (k : ℕ)
    → ((bucket k (group_markers markers steps).by_step or []) ≡ of_step k steps markers)
      × ((group_markers markers steps).loose ≡ filter (λ m. not (owned steps m)) markers)
unfolding group_markers
group_markers_lem markers steps k =
    let both = group_from_lem steps markers (record { by_step = []; loose = [] }) k in
    (both.0 ∙ unfold bucket in refl, both.1)
