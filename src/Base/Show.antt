-- ===== src/Base/Show.antt =====
-- Texts put together: `${a}${b}`, and a number as decimal digits.
use Prim.Native.Nat.{ℕ, zero, suc, ◌/◌, ◌%◌, ◌<◌}
use Prim.Native.String.{String}
use mathlib.Core.Path.{◌≡◌, ap}
use mathlib.Core.Logic.{inl, inr}
use native.Mathlib.Omega.{arith}
use langgraph_agent.Base.Tests.{ltb, eqb, if◌then◌else◌, Bool-cases, ltb→ge}

infixr 65 ◌<>◌
unfoldable pub ◌<>◌ : String → String → String
String.[] <> t = t
(String.◌∷◌ c s) <> t = String.◌∷◌ c (s <> t)

digit : ℕ → String
digit d =
    if eqb d 0
    then "0"
    else if eqb d 1
    then "1"
    else if eqb d 2
    then "2"
    else if eqb d 3
    then "3"
    else if eqb d 4
    then "4"
    else if eqb d 5
    then "5"
    else if eqb d 6
    then "6"
    else if eqb d 7
    then "7"
    else if eqb d 8
    then "8"
    else "9"

pub show_digits : ℕ → ℕ → String
unfolding digit ◌<>◌
show_digits zero n = ""
show_digits (suc fuel) n =
    let longer = show_digits fuel (n / 10) <> digit (n % 10) in if ltb n 10 then digit n else longer

-- Any fuel above the number gives the same digits.
pub show_digits_enough : (f g n : ℕ) → n < f → n < g → show_digits f n ≡ show_digits g n
unfolding show_digits
show_digits_enough zero g n h k = absurd (omega arith)
show_digits_enough (suc f) zero n h k = absurd (omega arith)
show_digits_enough (suc f) (suc g) n h k = elim (Bool-cases (ltb n 10)) [
  | inl small ↦ rw small
  | inr large ↦ rw large (
      ap (λ s. s <> digit (n % 10))
        (show_digits_enough f g (n / 10) (omega (arith, ltb→ge n 10 large))
          (omega (arith, ltb→ge n 10 large))))
]

-- `${n}`
unfoldable pub show : ℕ → String
unfolding show_digits
show n = show_digits (suc n) n
