-- ===== src/Base/Lists.antt =====
-- Arrays: `some`, `every`, `find`, `filter`, `slice`, measured by native numbers.
use Prim.Native.Nat.{ℕ, zero, suc, ◌+◌, ◌-◌, ◌≤◌, min}
use mathlib.Core.Path.{◌≡◌, refl, ap}
use mathlib.Core.Bool.{Bool, true, false, ◌&&◌, ◌||◌}
use mathlib.Core.List.{List, [], ◌∷◌, ◌++◌, map}
use mathlib.Core.Option.{Option, none, some}
use native.Mathlib.Omega.{arith}
use langgraph_agent.Base.Tests.{if◌then◌else◌}

module _ {ℓ} {A : Type ℓ} where
  abbrev pub length : List A → ℕ
  length [] = 0
  length (x ∷ xs) = suc (length xs)

  abbrev pub get_elem? : List A → ℕ → Option A
  get_elem? [] i = none
  get_elem? (x ∷ xs) zero = some x
  get_elem? (x ∷ xs) (suc i) = get_elem? xs i

  abbrev pub take : ℕ → List A → List A
  take zero xs = []
  take (suc n) [] = []
  take (suc n) (x ∷ xs) = x ∷ take n xs

  abbrev pub drop : ℕ → List A → List A
  drop zero xs = xs
  drop (suc n) [] = []
  drop (suc n) (x ∷ xs) = drop n xs

  -- `xs.slice(-n)` for n > 0
  abbrev pub last_n : ℕ → List A → List A
  last_n n xs = drop (length xs - n) xs

  -- `xs.slice(-n)`, where `slice(-0)` is `slice(0)`
  abbrev pub slice_end : ℕ → List A → List A
  slice_end zero xs = xs
  slice_end (suc n) xs = last_n (suc n) xs

  -- `xs.some(p)`
  abbrev pub any : (A → Bool) → List A → Bool
  any p [] = false
  any p (x ∷ xs) = p x || any p xs

  -- `xs.every(p)`
  abbrev pub all : (A → Bool) → List A → Bool
  all p [] = true
  all p (x ∷ xs) = p x && all p xs

  -- `xs.find(p)`
  abbrev pub find? : (A → Bool) → List A → Option A
  find? p [] = none
  find? p (x ∷ xs) = if p x then some x else find? p xs

  -- `xs.filter(p)`
  abbrev pub filter : (A → Bool) → List A → List A
  filter p [] = []
  filter p (x ∷ xs) = let rest = filter p xs in if p x then x ∷ rest else rest

  -- `xs[xs.length - 1]`
  abbrev pub last? : List A → Option A
  last? [] = none
  last? (x ∷ []) = some x
  last? (x ∷ y ∷ xs) = last? (y ∷ xs)

  -- Every element has the property.
  abbrev pub All {κ} : (A → Type κ) → List A → Type κ
  All P [] = Unit
  All P (x ∷ xs) = P x × All P xs

module _ {ℓ} {A : Type ℓ} where
  pub length-append : (xs ys : List A) → length (xs ++ ys) ≡ length xs + length ys
  length-append [] ys = omega arith
  length-append (x ∷ xs) ys = omega (arith, length-append xs ys)

  pub length-drop : (n : ℕ) (xs : List A) → length (drop n xs) ≡ length xs - n
  length-drop zero xs = omega arith
  length-drop (suc n) [] = omega arith
  length-drop (suc n) (x ∷ xs) = omega (arith, length-drop n xs)

  pub length-last_n : (n : ℕ) (xs : List A) → length (last_n n xs) ≡ min n (length xs)
  length-last_n n xs = omega (arith, length-drop (length xs - n) xs)

  pub length-filter : (p : A → Bool) (xs : List A) → length (filter p xs) ≤ length xs
  length-filter p [] = omega arith
  length-filter p (x ∷ xs) = ground (arith, length-filter p xs)

  pub any-append : (p : A → Bool) (xs ys : List A) → any p (xs ++ ys) ≡ (any p xs || any p ys)
  any-append p [] ys = refl
  any-append p (x ∷ xs) ys = ground (arith, any-append p xs ys)

  pub filter-append :
      (p : A → Bool) (xs ys : List A) → filter p (xs ++ ys) ≡ filter p xs ++ filter p ys
  filter-append p [] ys = refl
  filter-append p (x ∷ xs) ys = ground (arith, filter-append p xs ys)

  -- A filter that keeps all is the identity.
  pub filter-none : (p : A → Bool) (xs : List A) → all p xs ≡ true → filter p xs ≡ xs
  filter-none p [] h = refl
  filter-none p (x ∷ xs) h = ground (arith, filter-none p xs)

  -- What a filter keeps passes its test.
  pub all-filter : (p : A → Bool) (xs : List A) → all p (filter p xs) ≡ true
  all-filter p [] = refl
  all-filter p (x ∷ xs) = ground (arith, all-filter p xs)

  pub length-map {κ} : {B : Type κ} (xs : List A) (f : A → B) → length (map f xs) ≡ length xs
  length-map [] f = refl
  length-map (x ∷ xs) f = ap suc (length-map xs f)

  pub All-append {κ} : (P : A → Type κ) (xs ys : List A) → All P xs → All P ys → All P (xs ++ ys)
  All-append P [] ys hx hy = hy
  All-append P (x ∷ xs) ys hx hy = (hx.0, All-append P xs ys hx.1 hy)

module _ {ℓ} {A : Type ℓ} where
  pub map_idem :
      (f : A → A) → ((x : A) → f (f x) ≡ f x) → (xs : List A) → map f (map f xs) ≡ map f xs
  map_idem f h [] = refl
  map_idem f h (x ∷ xs) = cc (h x, map_idem f h xs)

  pub any-map :
      (p : A → Bool) (f : A → A)
      → ((x : A) → p (f x) ≡ p x)
      → (xs : List A) → any p (map f xs) ≡ any p xs
  any-map p f h [] = refl
  any-map p f h (x ∷ xs) = rw (h x, any-map p f h xs)

  pub map-none :
      (p : A → Bool) (g : A → A) (xs : List A)
      → any p xs ≡ false
      → map (λ x. if p x then g x else x) xs ≡ xs
  map-none p g [] h = refl
  map-none p g (x ∷ xs) h = ground (arith, map-none p g xs)

  pub map-append_one :
      (f : A → A) (xs : List A) (y : A) → map f (xs ++ y ∷ []) ≡ map f xs ++ f y ∷ []
  map-append_one f [] y = refl
  map-append_one f (x ∷ xs) y = ap (f x ∷◌) (map-append_one f xs y)
