-- ===== src/Grouping/Groups.antt =====
-- What the grouping loop gives: the groups' keys are distinct, and each group holds exactly the
-- elements with its key, in their order.
use langgraph_agent.Base.{
  String, Bool, true, false, not, ◌&&◌, ◌||◌, List, [], ◌∷◌, ◌++◌, any, any-append, map-none, map,
  filter, ◌==◌, eq_iff, if◌then◌else◌, ◌≡◌, refl, sym, ap, ◌∙◌, arith, Bool-cases, inl, inr,
}
use langgraph_agent.Grouping.{Group, add_to, group_onto, group_by}

module _ {ℓ} {A : Type ℓ} where
  -- The members of the group with the key, none when there is no such group.
  abbrev pub members_of : String → List (Group A) → List A
  members_of key [] = []
  members_of key (g ∷ groups) = if g.key == key then g.members else members_of key groups

  abbrev pub has_key : String → List (Group A) → Bool
  has_key key groups = any (λ g. g.key == key) groups

  abbrev pub distinct_keys : List (Group A) → Bool
  distinct_keys [] = true
  distinct_keys (g ∷ groups) = not (has_key g.key groups) && distinct_keys groups

module _ {ℓ} {A : Type ℓ} where
  abbrev grown : String → A → List (Group A) → List (Group A)
  grown key x groups =
      map (λ g. if g.key == key then record g { members = g.members ++ x ∷ [] } else g) groups

  has_key-grown :
      (key k : String) (x : A) (groups : List (Group A))
      → has_key k (grown key x groups) ≡ has_key k groups
  has_key-grown key k x [] = refl
  has_key-grown key k x (g ∷ groups) = ground (arith, has_key-grown key k x groups)

  distinct-grown :
      (key : String) (x : A) (groups : List (Group A))
      → distinct_keys (grown key x groups) ≡ distinct_keys groups
  distinct-grown key x [] = refl
  distinct-grown key x (g ∷ groups) =
      ground (arith, distinct-grown key x groups, has_key-grown key g.key x groups)

  append_none : (xs : List A) → xs ++ [] ≡ xs
  append_none [] = refl
  append_none (x ∷ xs) = ap (x ∷◌) (append_none xs)

  members_of-grown :
      (key k : String) (x : A) (groups : List (Group A))
      → has_key key groups ≡ true
      → members_of k (grown key x groups) ≡ members_of k groups ++ (if key == k then x ∷ [] else [])
  members_of-grown key k x [] h = ground arith
  members_of-grown key k x (g ∷ groups) h = ground (
    arith,
    members_of-grown key k x groups,
    map-none (λ o. o.key == key) (λ o. record o { members = o.members ++ x ∷ [] }) groups,
    eq_iff g.key key,
    eq_iff g.key k,
    eq_iff key k,
    append_none (members_of k groups),
    append_none g.members,
  )

  members_of-new :
      (key k : String) (x : A) (groups : List (Group A))
      → has_key key groups ≡ false
      → members_of k (groups ++ record { key = key; members = x ∷ [] } ∷ [])
        ≡ members_of k groups ++ (if key == k then x ∷ [] else [])
  members_of-new key k x [] h = ground arith
  members_of-new key k x (g ∷ groups) h = ground (
    arith,
    members_of-new key k x groups,
    eq_iff g.key key,
    eq_iff g.key k,
    eq_iff key k,
    append_none g.members,
  )

  distinct-new :
      (key : String) (x : A) (groups : List (Group A))
      → has_key key groups ≡ false
      → distinct_keys (groups ++ record { key = key; members = x ∷ [] } ∷ []) ≡ distinct_keys groups
  distinct-new key x [] h = refl
  distinct-new key x (g ∷ groups) h = ground (
    arith,
    distinct-new key x groups,
    any-append (λ o. o.key == g.key) groups (record { key = key; members = x ∷ [] } ∷ []),
    eq_iff key g.key,
    eq_iff g.key key,
  )

  has_key-new :
      (key k : String) (x : A) (groups : List (Group A))
      → has_key k (groups ++ record { key = key; members = x ∷ [] } ∷ [])
        ≡ (has_key k groups || (key == k))
  has_key-new key k x groups =
      ground
        (arith, any-append (λ o. o.key == k) groups (record { key = key; members = x ∷ [] } ∷ []))

  members_of-add_to :
      (key k : String) (x : A) (groups : List (Group A))
      → members_of k (add_to key x groups)
        ≡ members_of k groups ++ (if key == k then x ∷ [] else [])
  unfolding add_to
  members_of-add_to key k x groups = elim (Bool-cases (has_key key groups)) [
    | inl found ↦ rw found (members_of-grown key k x groups found)
    | inr new ↦ rw new (members_of-new key k x groups new)
  ]

  distinct-add_to :
      (key : String) (x : A) (groups : List (Group A))
      → distinct_keys (add_to key x groups) ≡ distinct_keys groups
  unfolding add_to
  distinct-add_to key x groups = elim (Bool-cases (has_key key groups)) [
    | inl found ↦ rw found (distinct-grown key x groups)
    | inr new ↦ rw new (distinct-new key x groups new)
  ]

  has_key-add_to :
      (key k : String) (x : A) (groups : List (Group A))
      → has_key k (add_to key x groups) ≡ (has_key k groups || (key == k))
  unfolding add_to
  has_key-add_to key k x groups = elim (Bool-cases (has_key key groups)) [
    | inl found ↦ rw found (ground (arith, has_key-grown key k x groups, eq_iff key k, found))
    | inr new ↦ rw new (has_key-new key k x groups)
  ]

  members_of-group_onto :
      (key_of : A → String) (xs : List A) (groups : List (Group A)) (k : String)
      → members_of k (group_onto key_of xs groups)
        ≡ members_of k groups ++ filter (λ x. key_of x == k) xs
  unfolding group_onto
  members_of-group_onto key_of [] groups k = sym (append_none _)
  members_of-group_onto key_of (x ∷ xs) groups k =
      members_of-group_onto key_of xs (add_to (key_of x) x groups) k
      ∙ rw (members_of-add_to (key_of x) k x groups) (regroup (members_of k groups) (key_of x == k))
    where
      regroup :
          (before : List A) (here : Bool)
          → (before ++ (if here then x ∷ [] else [])) ++ filter (λ y. key_of y == k) xs
            ≡ before
              ++ (if here
                  then x ∷ filter (λ y. key_of y == k) xs
                  else filter (λ y. key_of y == k) xs)
      regroup [] true = refl
      regroup [] false = refl
      regroup (y ∷ ys) here = ap (y ∷◌) (regroup ys here)

  distinct-group_onto :
      (key_of : A → String) (xs : List A) (groups : List (Group A))
      → distinct_keys (group_onto key_of xs groups) ≡ distinct_keys groups
  unfolding group_onto
  distinct-group_onto key_of [] groups = refl
  distinct-group_onto key_of (x ∷ xs) groups =
      distinct-group_onto key_of xs (add_to (key_of x) x groups)
      ∙ distinct-add_to (key_of x) x groups

  has_key-group_onto :
      (key_of : A → String) (xs : List A) (groups : List (Group A)) (k : String)
      → has_key k (group_onto key_of xs groups) ≡ (has_key k groups || any (λ x. key_of x == k) xs)
  unfolding group_onto
  has_key-group_onto key_of [] groups k = ground arith
  has_key-group_onto key_of (x ∷ xs) groups k = ground (
    arith,
    has_key-group_onto key_of xs (add_to (key_of x) x groups) k,
    has_key-add_to (key_of x) k x groups,
  )

  -- No two groups have the same key; there is a group for a key exactly when an element has that
  -- key; and the group holds the elements with its key, in the order of the list.
  pub group_by_lem :
      (key_of : A → String) (xs : List A) (k : String)
      → (distinct_keys (group_by key_of xs) ≡ true)
        × (has_key k (group_by key_of xs) ≡ any (λ x. key_of x == k) xs)
        × (members_of k (group_by key_of xs) ≡ filter (λ x. key_of x == k) xs)
  unfolding group_by
  group_by_lem key_of xs k = (
    distinct-group_onto key_of xs [],
    has_key-group_onto key_of xs [] k,
    members_of-group_onto key_of xs [] k,
  )
