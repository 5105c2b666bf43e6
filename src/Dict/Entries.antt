-- ===== src/Dict/Entries.antt =====
-- The members of an object, in the order in which their keys were first written.
use langgraph_agent.Base.{
  String, Bool, true, Option, none, some, List, [], ◌∷◌, any, ◌==◌, if◌then◌else◌, ◌≡◌, refl, arith,
  eq_iff,
}

module _ {ℓ} {V : Type ℓ} where
  unfoldable pub find : String → List (String × V) → Option V
  find k [] = none
  find k ((j, v) ∷ m) = if j == k then some v else find k m

  pub write : String → V → List (String × V) → List (String × V)
  write k v [] = (k, v) ∷ []
  write k v ((j, w) ∷ m) = if j == k then (j, v) ∷ m else (j, w) ∷ write k v m

  pub without : String → List (String × V) → List (String × V)
  without k [] = []
  without k ((j, w) ∷ m) = let rest = without k m in if j == k then rest else (j, w) ∷ rest

  pub members : List (String × V) → List V
  members [] = []
  members ((j, w) ∷ m) = w ∷ members m

  pub find-write :
      (k j : String) (v : V) (m : List (String × V))
      → find j (write k v m) ≡ (if k == j then some v else find j m)
  unfolding find write
  find-write k j v [] = refl
  find-write k j v ((i, w) ∷ m) =
      ground (arith, find-write k j v m, eq_iff k j, eq_iff i j, eq_iff i k)

  pub find-without :
      (k j : String) (m : List (String × V))
      → find j (without k m) ≡ (if k == j then none else find j m)
  unfolding find without
  find-without k j [] = ground arith
  find-without k j ((i, w) ∷ m) =
      ground (arith, find-without k j m, eq_iff k j, eq_iff i j, eq_iff i k)

  -- Writing what is there already changes nothing.
  pub write-find :
      (k : String) (v : V) (m : List (String × V)) → find k m ≡ some v → write k v m ≡ m
  unfolding find write
  write-find k v [] h = cc
  write-find k v ((i, w) ∷ m) h = ground (arith, write-find k v m)

  -- What is found is a member.
  pub any-members :
      (p : V → Bool) (k : String) (v : V) (m : List (String × V))
      → find k m ≡ some v
      → p v ≡ true
      → any p (members m) ≡ true
  unfolding find members
  any-members p k v [] h t = cc
  any-members p k v ((i, w) ∷ m) h t = ground (arith, any-members p k v m)
