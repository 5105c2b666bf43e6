-- ===== src/EventLedger/Latest.antt =====
-- The `Map` of ledgerEvents, read in the order of its places, is the buffer without the frames that a
-- later frame repeats.
use langgraph_agent.Base.{
  ℕ, ◌+◌, ◌<◌, ◌≤◌, Bool, true, false, not, ◌||◌, List, [], ◌∷◌, ◌++◌, map, filter, any, All,
  if◌then◌else◌, ◌≡◌, refl, ◌∙◌, sym, ap, arith, Bool-cases, inl, inr, sort_by, insert_by,
  insert_by-last, insert_by-append, filter-insert_by, sort_by-IsSorted,
}
use langgraph_agent.Types.{SseEvent, same_fact, same_fact_iff, EventData}
use langgraph_agent.EventLedger.{Entry, tells, set_latest, fill}

-- The frames that no later frame repeats, in the order of the buffer.
pub latest : List SseEvent → List SseEvent
latest [] = []
latest (ev ∷ evs) =
    let rest = latest evs in if any (λ later. tells ev later) evs then rest else ev ∷ rest

abbrev place : Entry → ℕ
place e = e.at

abbrev repeats : Entry → Entry → Bool
repeats e x = tells x.ev e.ev

-- Every key once.
abbrev Unique : List Entry → Type 0
Unique [] = Unit {0}
Unique (x ∷ m) = (any (repeats x) m ≡ false) × Unique m

same_fact_eq : (a b k : EventData) → same_fact a b ≡ true → same_fact a k ≡ same_fact b k
same_fact_eq a b k h = ap (λ d. same_fact d k) ((same_fact_iff a b).0 h)

same_fact_comm : (a b : EventData) → same_fact a b ≡ same_fact b a
same_fact_comm a b = ground (arith, same_fact_iff a b, same_fact_iff b a)

any-set_latest :
    (k : Entry) (e : Entry) (m : List Entry)
    → any (repeats k) (set_latest e m) ≡ (any (repeats k) m || repeats k e)
unfolding set_latest
any-set_latest k e [] = ground arith
any-set_latest k e (x ∷ m) =
    ground (arith, same_fact_eq x.ev.data_of e.ev.data_of k.ev.data_of, any-set_latest k e m)

repeats-any :
    (x e : Entry) (m : List Entry) → tells x.ev e.ev ≡ true → any (repeats e) m ≡ any (repeats x) m
repeats-any x e m h =
    ap (λ d. any (λ (y : Entry). same_fact y.ev.data_of d) m)
      (sym ((same_fact_iff x.ev.data_of e.ev.data_of).0 h))

Unique-set_latest : (e : Entry) (m : List Entry) → Unique m → Unique (set_latest e m)
unfolding set_latest
Unique-set_latest e [] u = (refl, tt)
Unique-set_latest e (x ∷ m) u = ground (
  arith,
  repeats-any x e m,
  any-set_latest x e m,
  same_fact_comm x.ev.data_of e.ev.data_of,
  Unique-set_latest e m u.1,
)

All-set_latest :
    (n : ℕ) (e : Entry) (m : List Entry)
    → e.at < n
    → All (λ x. x.at < n) m
    → All (λ x. x.at < n) (set_latest e m)
unfolding set_latest
All-set_latest n e [] h a = (h, tt)
All-set_latest n e (x ∷ m) h a = ground (arith, All-set_latest n e m h a.1)

All-weaken : (m n : ℕ) (xs : List Entry) → m ≤ n → All (λ x. x.at < m) xs → All (λ x. x.at < n) xs
All-weaken m n [] h a = tt
All-weaken m n (x ∷ xs) h a = (omega arith, All-weaken m n xs h a.1)

All-insert :
    (n : ℕ) (e : Entry) (m : List Entry)
    → e.at < n
    → All (λ x. x.at < n) m
    → All (λ x. x.at < n) (insert_by place e m)
unfolding insert_by
All-insert n e [] h a = (h, tt)
All-insert n e (x ∷ m) h a = ground (arith, All-insert n e m h a.1)

All-sort : (n : ℕ) (m : List Entry) → All (λ x. x.at < n) m → All (λ x. x.at < n) (sort_by place m)
unfolding sort_by
All-sort n [] a = tt
All-sort n (x ∷ m) a = All-insert n x _ a.0 (All-sort n m a.1)

-- A list without a frame's key is not changed by taking the key out.
any-insert :
    (p : Entry → Bool) (e : Entry) (m : List Entry) → any p (insert_by place e m) ≡ (p e || any p m)
unfolding insert_by
any-insert p e [] = refl
any-insert p e (x ∷ m) = ground (arith, any-insert p e m)

any-sort : (p : Entry → Bool) (m : List Entry) → any p (sort_by place m) ≡ any p m
unfolding sort_by
any-sort p [] = refl
any-sort p (x ∷ m) = any-insert p x (sort_by place m) ∙ ap (λ b. p x || b) (any-sort p m)

filter-absent :
    (p : Entry → Bool) (m : List Entry) → any p m ≡ false → filter (λ x. not (p x)) m ≡ m
filter-absent p [] h = refl
filter-absent p (x ∷ m) h = ground (arith, filter-absent p m)

abbrev fresh : Entry → Entry → Bool
fresh e x = not (repeats e x)

-- The sorted map after a write: the key's old entry is gone, and the new one is last.
sort-set_latest :
    (e : Entry) (m : List Entry)
    → Unique m
    → All (λ x. x.at < e.at) m
    → sort_by place (set_latest e m) ≡ filter (fresh e) (sort_by place m) ++ e ∷ []
unfolding set_latest sort_by
sort-set_latest e [] u a = unfold insert_by in refl
sort-set_latest e (x ∷ m) u a = elim (Bool-cases (tells x.ev e.ev)) [
  | inl same ↦ rw same (
      insert_by-last place e (sort_by place m) (All-sort e.at m a.1)
      ∙ ap (◌++ e ∷ []) (
          sym (
            filter-insert_by place (fresh e) x (sort_by place m) (sort_by-IsSorted place m)
            ∙ rw same (filter-absent (repeats e) (sort_by place m) (lacks same)))))
  | inr other ↦
      rw (other, sort-set_latest e m u.1 a.1)
        (insert_by-append place x e (filter (fresh e) (sort_by place m)) a.0
          ∙ ap (◌++ e ∷ []) (
              sym (
                filter-insert_by place (fresh e) x (sort_by place m) (sort_by-IsSorted place m)
                ∙ rw other)))
]
  where
    lacks : tells x.ev e.ev ≡ true → any (repeats e) (sort_by place m) ≡ false
    lacks same = any-sort (repeats e) m ∙ repeats-any x e m same ∙ u.0

-- One frame more, on the list of frames.
push : SseEvent → List SseEvent → List SseEvent
push ev l = filter (λ x. not (tells x ev)) l ++ ev ∷ []

push_all : List SseEvent → List SseEvent → List SseEvent
push_all l [] = l
push_all l (ev ∷ evs) = push_all (push ev l) evs

map-filter :
    (e : Entry) (m : List Entry)
    → map (λ x. x.ev) (filter (fresh e) m ++ e ∷ []) ≡ push e.ev (map (λ x. x.ev) m)
unfolding push
map-filter e [] = refl
map-filter e (x ∷ m) = ground (arith, map-filter e m)

-- The map is filled as the list of frames is.
fill-push_all :
    (at : ℕ) (evs : List SseEvent) (m : List Entry)
    → Unique m
    → All (λ x. x.at < at) m
    → map (λ x. x.ev) (sort_by place (fill at evs m))
      ≡ push_all (map (λ x. x.ev) (sort_by place m)) evs
unfolding fill push_all
fill-push_all at [] m u a = refl
fill-push_all at (ev ∷ evs) m u a =
    fill-push_all (at + 1) evs _ (Unique-set_latest e m u)
      (All-set_latest (at + 1) e m (omega arith) (All-weaken at (at + 1) m (omega arith) a))
    ∙ ap (λ l. push_all l evs)
        (ap (map (λ x. x.ev)) (sort-set_latest e m u a) ∙ map-filter e (sort_by place m))
  where
    e : Entry
    e = record { ev = ev; at = at }

keep_all : (l : List SseEvent) → l ≡ filter (λ x. not (any (λ later. tells x later) [])) l ++ []
keep_all [] = refl
keep_all (x ∷ l) = ap (x ∷◌) (keep_all l)

regroup :
    (ev : SseEvent) (evs l : List SseEvent)
    → filter (λ x. not (any (λ later. tells x later) evs)) (push ev l) ++ latest evs
      ≡ filter (λ x. not (any (λ later. tells x later) (ev ∷ evs))) l ++ latest (ev ∷ evs)
unfolding latest push
regroup ev evs [] = ground arith
regroup ev evs (x ∷ l) = ground (arith, regroup ev evs l)

push_all-latest :
    (l evs : List SseEvent)
    → push_all l evs ≡ filter (λ x. not (any (λ later. tells x later) evs)) l ++ latest evs
unfolding push_all
push_all-latest l [] = keep_all l ∙ unfold latest in refl
push_all-latest l (ev ∷ evs) = push_all-latest (push ev l) evs ∙ regroup ev evs l

-- Whatever the buffer, the values of the `Map` in the order of their places are the frames that no
-- later frame repeats, in the order of the buffer.
pub fill-latest :
    (events : List SseEvent)
    → map (λ e. e.ev) (sort_by (λ e. e.at) (fill 0 events [])) ≡ latest events
fill-latest events = fill-push_all 0 events [] tt tt ∙ unfold sort_by in push_all-latest [] events
