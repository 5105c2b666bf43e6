-- ===== src/PlanToc/Lines.antt =====
-- What a line of a plan is for frontend/src/components/dash/planToc.ts: a fence, a heading or neither,
-- described by how the line is put together.
use Prim.Native.Char.{code}
use langgraph_agent.Base.{
  ℕ, zero, suc, String, Bool, true, false, not, ◌&&◌, none, some, eqb, leb, ◌<>◌, is_space, ◌≡◌,
  refl, arith, ◌⊎◌,
}
use langgraph_agent.PlanToc.{fence_marker, one_line, begins_with_space}

-- A text begins with so many characters of a code.
abbrev pub starts_with : ℕ → ℕ → String → Bool
starts_with k zero s = true
starts_with k (suc n) String.[] = false
starts_with k (suc n) (String.◌∷◌ c s) = eqb (code c) k && starts_with k n s

-- Three backticks or three tildes.
abbrev pub Marker : ℕ → Type 0
Marker k = (k ≡ 96) ⊎ (k ≡ 126)

abbrev pub is_fence : ℕ → String → Bool
is_fence k s = starts_with k 3 s

abbrev pub all_codes : (ℕ → Bool) → String → Bool
all_codes p String.[] = true
all_codes p (String.◌∷◌ c s) = p (code c) && all_codes p s

abbrev pub size : String → ℕ
size String.[] = 0
size (String.◌∷◌ c s) = suc (size s)

-- A text that is not empty and does not begin with a space.
abbrev pub is_text : String → Bool
is_text String.[] = false
is_text (String.◌∷◌ c s) = not (is_space (code c))

-- One to three number signs, spaces, and a text on one line.
pub record IsHeading (s : String) (level : ℕ) (raw : String) : Type 0 where
  pub signs : String
  pub gap : String
  pub parts : s ≡ signs <> (gap <> raw)
  pub numbered : (all_codes (λ c. eqb c 35) signs ≡ true) × (size signs ≡ level)
  pub low : (leb 1 level && leb level 3) ≡ true
  pub spaces : (all_codes is_space gap ≡ true) × (begins_with_space gap ≡ true)
  pub text : (is_text raw ≡ true) × (one_line raw ≡ true)

pub fence_char_found :
    (s : String) (m : ℕ) → fence_marker s ≡ some m → (is_fence m s ≡ true) × Marker m
unfolding fence_marker
fence_char_found String.[] m h = cc h
fence_char_found (String.◌∷◌ a String.[]) m h = cc h
fence_char_found (String.◌∷◌ a (String.◌∷◌ b String.[])) m h = cc h
fence_char_found (String.◌∷◌ a (String.◌∷◌ b (String.◌∷◌ c s))) m h = ground (arith, h)

pub fence_absent : (s : String) (k : ℕ) → fence_marker s ≡ none → Marker k → is_fence k s ≡ false
unfolding fence_marker
fence_absent String.[] k h marker = refl
fence_absent (String.◌∷◌ a String.[]) k h marker = ground arith
fence_absent (String.◌∷◌ a (String.◌∷◌ b String.[])) k h marker = ground arith
fence_absent (String.◌∷◌ a (String.◌∷◌ b (String.◌∷◌ c s))) k h marker = ground (arith, h, marker)

-- Two fences of one line have one character.
pub fence_differs :
    (s : String) (k m : ℕ) → is_fence m s ≡ true → eqb k m ≡ false → is_fence k s ≡ false
fence_differs String.[] k m h other = cc h
fence_differs (String.◌∷◌ a s) k m h other = ground (arith, h, other)
