-- ===== src/Base/Sort.antt =====
-- `sort((a, b) => key(a) - key(b))`: a stable insertion sort, and how it meets filters and appends.
use Prim.Native.Nat.{ℕ, ◌≤◌, ◌<◌}
use mathlib.Core.Path.{◌≡◌, refl}
use mathlib.Core.Bool.{Bool, true}
use mathlib.Core.List.{List, [], ◌∷◌, ◌++◌}
use mathlib.Core.Logic.{inl, inr}
use native.Mathlib.Omega.{arith}
use langgraph_agent.Base.Tests.{leb, if◌then◌else◌, Bool-cases}
use langgraph_agent.Base.Lists.{All, filter}

module _ {A : Type 0} (key : A → ℕ) where
  -- An element goes before the first one that is not less.
  unfoldable pub insert_by : A → List A → List A
  insert_by x [] = x ∷ []
  insert_by x (y ∷ ys) = if leb (key x) (key y) then x ∷ y ∷ ys else y ∷ insert_by x ys

  unfoldable pub sort_by : List A → List A
  unfolding insert_by
  sort_by [] = []
  sort_by (x ∷ xs) = insert_by x (sort_by xs)

  abbrev pub IsSorted : List A → Type 0
  IsSorted [] = Unit {0}
  IsSorted (x ∷ xs) = All (λ y. key x ≤ key y) xs × IsSorted xs

  All-insert_by :
      (n : ℕ) (x : A) (ys : List A)
      → n ≤ key x
      → All (λ y. n ≤ key y) ys
      → All (λ y. n ≤ key y) (insert_by x ys)
  unfolding insert_by
  All-insert_by n x [] h a = (h, tt)
  All-insert_by n x (y ∷ ys) h a = ground (arith, All-insert_by n x ys h a.1)

  All-le : (m n : ℕ) (ys : List A) → m ≤ n → All (λ y. n ≤ key y) ys → All (λ y. m ≤ key y) ys
  All-le m n [] h a = tt
  All-le m n (y ∷ ys) h a = (omega arith, All-le m n ys h a.1)

  insert_by-IsSorted : (x : A) (ys : List A) → IsSorted ys → IsSorted (insert_by x ys)
  unfolding insert_by
  insert_by-IsSorted x [] o = (tt, tt)
  insert_by-IsSorted x (y ∷ ys) o =
      ground (arith, All-le (key x) (key y) ys, All-insert_by (key y) x ys, insert_by-IsSorted x ys)

  pub sort_by-IsSorted : (xs : List A) → IsSorted (sort_by xs)
  unfolding sort_by
  sort_by-IsSorted [] = tt
  sort_by-IsSorted (x ∷ xs) = insert_by-IsSorted x (sort_by xs) (sort_by-IsSorted xs)

  insert_by-head : (x : A) (ys : List A) → All (λ y. key x ≤ key y) ys → insert_by x ys ≡ x ∷ ys
  unfolding insert_by
  insert_by-head x [] a = refl
  insert_by-head x (y ∷ ys) a = ground arith

  -- What is greater than all goes last.
  pub insert_by-last :
      (x : A) (ys : List A) → All (λ y. key y < key x) ys → insert_by x ys ≡ ys ++ x ∷ []
  unfolding insert_by
  insert_by-last x [] a = refl
  insert_by-last x (y ∷ ys) a = ground (arith, insert_by-last x ys a.1)

  pub insert_by-append :
      (x e : A) (ys : List A)
      → key x < key e
      → insert_by x (ys ++ e ∷ []) ≡ insert_by x ys ++ e ∷ []
  unfolding insert_by
  insert_by-append x e [] h = ground arith
  insert_by-append x e (y ∷ ys) h = ground (arith, insert_by-append x e ys h)

  All-filter :
      (n : ℕ) (p : A → Bool) (ys : List A)
      → All (λ y. n ≤ key y) ys
      → All (λ y. n ≤ key y) (filter p ys)
  All-filter n p [] a = tt
  All-filter n p (y ∷ ys) a = ground (arith, All-filter n p ys a.1)

  pub filter-insert_by :
      (p : A → Bool) (x : A) (ys : List A)
      → IsSorted ys
      → filter p (insert_by x ys) ≡ (if p x then insert_by x (filter p ys) else filter p ys)
  unfolding insert_by
  filter-insert_by p x [] o = ground arith
  filter-insert_by p x (y ∷ ys) o = elim (Bool-cases (leb (key x) (key y))) [
    | inl before ↦ rw before (front before)
    | inr after ↦ rw after (ground (arith, filter-insert_by p x ys o.1))
  ]
    where
      front :
          leb (key x) (key y) ≡ true
          → filter p (x ∷ y ∷ ys)
            ≡ (if p x then insert_by x (filter p (y ∷ ys)) else filter p (y ∷ ys))
      front before = ground (
        arith,
        insert_by-head x (filter p ys)
            (All-filter (key x) p ys (All-le (key x) (key y) ys (ground arith) o.0)),
      )

  -- Filtering before the sort is filtering after it.
  pub sort_by-filter : (p : A → Bool) (xs : List A) → sort_by (filter p xs) ≡ filter p (sort_by xs)
  unfolding sort_by
  sort_by-filter p [] = refl
  sort_by-filter p (x ∷ xs) =
      ground (arith, filter-insert_by p x (sort_by xs) (sort_by-IsSorted xs), sort_by-filter p xs)
