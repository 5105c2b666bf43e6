-- ===== src/Base/Strings.antt =====
-- Texts: `includes` on arrays of texts, and `trim`.
use Prim.Native.Nat.{ℕ}
use Prim.Native.Char.{code}
use Prim.Native.String.{String}
use text.Mathlib.Text.{◌==◌}
use mathlib.Core.Path.{◌≡◌, refl, ap}
use mathlib.Core.Logic.{◌≢◌, inl, inr}
use mathlib.Core.Bool.{Bool, true, false, ◌&&◌, ◌||◌}
use native.Mathlib.Omega.{arith}
use text.Mathlib.TextEquality.{eq_iff}
use Prim.Native.Char.{Char}
use mathlib.Core.List.{List, [], ◌∷◌}
use langgraph_agent.Base.Tests.{leb, eqb, if◌then◌else◌, truthy, Bool-cases}
use langgraph_agent.Base.Lists.{any}

-- `xs.includes(s)`
abbrev pub includes : List String → String → Bool
includes xs s = any (λ x. x == s) xs

-- ECMAScript white space and line terminators, by code point.
abbrev pub is_space : ℕ → Bool
is_space c =
    (leb 9 c && leb c 13)
    || eqb c 32
    || eqb c 0xa0
    || eqb c 0x1680
    || (leb 0x2000 c && leb c 0x200a)
    || eqb c 0x2028
    || eqb c 0x2029
    || eqb c 0x202f
    || eqb c 0x205f
    || eqb c 0x3000
    || eqb c 0xfeff

trim_start : String → String
trim_start String.[] = String.[]
trim_start (String.◌∷◌ c s) =
    let rest = trim_start s in if is_space (code c) then rest else String.◌∷◌ c s

-- The trailing spaces are dropped from the right: a space stays where something follows it.
trim_end : String → String
trim_end String.[] = String.[]
trim_end (String.◌∷◌ c s) =
    let rest = trim_end s in
    if is_space (code c) && (rest == "") then String.[] else String.◌∷◌ c rest

-- `s.trim()`
unfoldable pub trim : String → String
unfolding trim_start trim_end
trim s = trim_end (trim_start s)

abbrev is_empty : String → Bool
is_empty String.[] = true
is_empty (String.◌∷◌ c s) = false

pub truthy-cons : (c : Char) (s : String) → truthy (String.◌∷◌ c s) ≡ true
truthy-cons c s = elim (Bool-cases (String.◌∷◌ c s == "")) [
  | inl same ↦ absurd (false≢true (ap is_empty ((eq_iff (String.◌∷◌ c s) "").0 same)))
  | inr other ↦ rw other refl
]
  where
    false≢true : false ≢ true
    false≢true e = ground arith

abbrev on_first : Char → List String → List String
on_first c [] = String.◌∷◌ c String.[] ∷ []
on_first c (line ∷ lines) = String.◌∷◌ c line ∷ lines

-- `text.split("\n")`
unfoldable pub split_lines : String → List String
split_lines String.[] = "" ∷ []
split_lines (String.◌∷◌ c s) =
    let rest = split_lines s in if eqb (code c) 10 then "" ∷ rest else on_first c rest
