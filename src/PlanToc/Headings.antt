-- ===== src/PlanToc/Headings.antt =====
-- The heading pattern of frontend/src/components/dash/planToc.ts against how a heading is put together.
use Prim.Native.Char.{code}
use langgraph_agent.Base.{
  ℕ, String, Bool, true, false, ◌&&◌, none, some, eqb, leb, ◌<>◌, is_space, truthy, ◌≡◌, refl, sym,
  ap, ◌∙◌, arith, inl, inr, Bool-cases, truthy-cons, ◌or◌,
}
use mathlib.Core.Path.{subst}
use langgraph_agent.PlanToc.{hashes, drop_spaces, one_line, heading, begins_with_space}
use langgraph_agent.PlanToc.Lines.{all_codes, size, is_text, IsHeading}

record SignsOf (s : String) (many : ℕ) (rest : String) : Type 0 where
  signs : String
  parts : s ≡ signs <> rest
  only : all_codes (λ c. eqb c 35) signs ≡ true
  counted : size signs ≡ many

hashes-SignsOf : (s : String) → SignsOf s (hashes s).0 (hashes s).1
unfolding hashes ◌<>◌
hashes-SignsOf String.[] = record { signs = ""; parts = refl; only = refl; counted = refl }
hashes-SignsOf (String.◌∷◌ c s) =
    let rest = hashes-SignsOf s in
    elim (Bool-cases (eqb (code c) 35)) [
      | inl sign ↦ rw sign (record {
        signs = String.◌∷◌ c rest.signs;
        parts = ap (String.◌∷◌ c) rest.parts;
        only = rw sign rest.only;
        counted = omega (arith, rest.counted);
      })
      | inr other ↦ rw other (record { signs = ""; parts = refl; only = refl; counted = refl })
    ]

record GapOf (s rest : String) : Type 0 where
  gap : String
  parts : s ≡ gap <> rest
  only : all_codes is_space gap ≡ true
  begins : begins_with_space s ≡ begins_with_space gap
  text : truthy rest ≡ is_text rest

drop_spaces-GapOf : (s : String) → GapOf s (drop_spaces s)
unfolding drop_spaces ◌<>◌
drop_spaces-GapOf String.[] = record {
  gap = "";
  parts = refl;
  only = refl;
  begins = refl;
  text = refl;
}
drop_spaces-GapOf (String.◌∷◌ c s) =
    let rest = drop_spaces-GapOf s in
    elim (Bool-cases (is_space (code c))) [
      | inl space ↦ rw space (record {
        gap = String.◌∷◌ c rest.gap;
        parts = ap (String.◌∷◌ c) rest.parts;
        only = rw space rest.only;
        begins = rw space refl;
        text = rest.text;
      })
      | inr other ↦ rw other (record {
        gap = "";
        parts = refl;
        only = refl;
        begins = other;
        text = truthy-cons c s ∙ rw other refl;
      })
    ]

hashes-signs :
    (signs rest : String)
    → all_codes (λ c. eqb c 35) signs ≡ true
    → begins_with_space rest ≡ true
    → hashes (signs <> rest) ≡ (size signs, rest)
unfolding hashes ◌<>◌
hashes-signs String.[] String.[] only space = cc space
hashes-signs String.[] (String.◌∷◌ c rest) only space = ground (arith, space)
hashes-signs (String.◌∷◌ c signs) rest only space = elim (Bool-cases (eqb (code c) 35)) [
  | inl sign ↦
      rw (sign, hashes-signs signs rest (ground (arith, only)) space)
        (ap (λ n. (n, rest)) (omega arith))
  | inr other ↦ absurd (ground (arith, only, other))
]

drop_spaces-gap :
    (gap raw : String)
    → all_codes is_space gap ≡ true
    → is_text raw ≡ true
    → drop_spaces (gap <> raw) ≡ raw
unfolding drop_spaces ◌<>◌
drop_spaces-gap String.[] String.[] only text = cc text
drop_spaces-gap String.[] (String.◌∷◌ c raw) only text = elim (Bool-cases (is_space (code c))) [
  | inl space ↦ absurd (ground (arith, space, text))
  | inr other ↦ rw other refl
]
drop_spaces-gap (String.◌∷◌ c gap) raw only text = elim (Bool-cases (is_space (code c))) [
  | inl space ↦ rw space (drop_spaces-gap gap raw (ground (arith, only)) text)
  | inr other ↦ absurd (ground (arith, only, other))
]

begins-gap :
    (gap raw : String) → begins_with_space gap ≡ true → begins_with_space (gap <> raw) ≡ true
unfolding ◌<>◌
begins-gap String.[] raw h = cc h
begins-gap (String.◌∷◌ c gap) raw h = h

truthy-text : (raw : String) → is_text raw ≡ true → truthy raw ≡ true
truthy-text String.[] h = cc h
truthy-text (String.◌∷◌ c raw) h = truthy-cons c raw

-- The conditions of the pattern.
abbrev matches : ℕ → String → String → Bool
matches level rest text =
    leb 1 level && leb level 3 && begins_with_space rest && truthy text && one_line text

matches-facts :
    (level : ℕ) (rest text : String)
    → matches level rest text ≡ true
    → ((leb 1 level && leb level 3) ≡ true)
      × (begins_with_space rest ≡ true)
      × (truthy text ≡ true)
      × (one_line text ≡ true)
matches-facts level rest text h = ground (arith, h)

matched-IsHeading :
    (s : String)
    → matches (hashes s).0 (hashes s).1 (drop_spaces (hashes s).1) ≡ true
    → IsHeading s (hashes s).0 (drop_spaces (hashes s).1)
matched-IsHeading s h = record {
  signs = front.signs;
  gap = middle.gap;
  parts = front.parts ∙ ap (front.signs <>◌) middle.parts;
  numbered = (front.only, front.counted);
  low = facts.0;
  spaces = (middle.only, sym middle.begins ∙ facts.1);
  text = (sym middle.text ∙ facts.2, facts.3);
}
  where
    front : SignsOf s (hashes s).0 (hashes s).1
    front = hashes-SignsOf s

    middle : GapOf (hashes s).1 (drop_spaces (hashes s).1)
    middle = drop_spaces-GapOf (hashes s).1

    facts :
        ((leb 1 (hashes s).0 && leb (hashes s).0 3) ≡ true)
        × (begins_with_space (hashes s).1 ≡ true)
        × (truthy (drop_spaces (hashes s).1) ≡ true)
        × (one_line (drop_spaces (hashes s).1) ≡ true)
    facts = matches-facts (hashes s).0 (hashes s).1 (drop_spaces (hashes s).1) h

abbrev found_in : String → ℕ × String
found_in s = ((hashes s).0, drop_spaces (hashes s).1)

heading-met :
    (s : String)
    → matches (hashes s).0 (hashes s).1 (drop_spaces (hashes s).1) ≡ true
    → heading s ≡ some (found_in s)
unfolding heading
heading-met s met = rw met refl

heading-missed :
    (s : String)
    → matches (hashes s).0 (hashes s).1 (drop_spaces (hashes s).1) ≡ false
    → heading s ≡ none
unfolding heading
heading-missed s missed = rw missed refl

pub heading-IsHeading :
    (s : String) (level : ℕ) (raw : String) → heading s ≡ some (level, raw) → IsHeading s level raw
heading-IsHeading s level raw h =
    elim (Bool-cases (matches (hashes s).0 (hashes s).1 (drop_spaces (hashes s).1))) [
      | inl met ↦
          let same = ap (λ o. o or found_in s) (sym (heading-met s met) ∙ h) in
          subst (λ (p : ℕ × String). IsHeading s p.0 p.1) same (matched-IsHeading s met)
      | inr missed ↦ cc (h, heading-missed s missed)
    ]

pub IsHeading-heading :
    (s : String) (level : ℕ) (raw : String) → IsHeading s level raw → heading s ≡ some (level, raw)
unfolding heading
IsHeading-heading s level raw h =
    rw (read, drop_spaces-gap h.gap raw h.spaces.0 h.text.0)
      (rw met (ap (λ n. some (n, raw)) h.numbered.1))
  where
    read : hashes s ≡ (size h.signs, h.gap <> raw)
    read =
        ap hashes h.parts
        ∙ hashes-signs h.signs (h.gap <> raw) h.numbered.0 (begins-gap h.gap raw h.spaces.1)

    met : matches (size h.signs) (h.gap <> raw) raw ≡ true
    met =
        rw (h.numbered.1, begins-gap h.gap raw h.spaces.1, truthy-text raw h.text.0, h.text.1)
          (ground (arith, h.low))
