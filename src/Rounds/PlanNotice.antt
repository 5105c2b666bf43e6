-- ===== src/Rounds/PlanNotice.antt =====
-- frontend/src/lib/rounds.ts, `isPlanNotice`: the line that tells of a plan update.
use Prim.Native.Char.{Char, code}
use langgraph_agent.Base.{
  String, Bool, true, false, ◌&&◌, Option, none, some, leb, ◌==◌, eq_iff, eq_refl, ◌or◌, truthy,
  trim, ◌<>◌, if◌then◌else◌, ◌≡◌, ◌↔◌, refl, sym, ap, ◌∙◌, arith, Bool-cases, Option-cases, ◌≢◌,
  inl, inr,
}

abbrev is_digit : Char → Bool
is_digit c = leb b'0' (code c) && leb (code c) b'9'

abbrev pub all_digits : String → Bool
all_digits String.[] = true
all_digits (String.◌∷◌ c s) = is_digit c && all_digits s

-- `\d*`, as many as there are: the digits, and what follows them.
unfoldable pub digits_of : String → String
digits_of String.[] = String.[]
digits_of (String.◌∷◌ c s) =
    let rest = digits_of s in if is_digit c then String.◌∷◌ c rest else String.[]

unfoldable pub after_digits : String → String
after_digits String.[] = String.[]
after_digits (String.◌∷◌ c s) =
    let rest = after_digits s in if is_digit c then rest else String.◌∷◌ c s

-- What follows a prefix, none where the text does not begin with it.
unfoldable pub after_prefix : String → String → Option String
after_prefix String.[] s = some s
after_prefix (String.◌∷◌ c p) String.[] = none
after_prefix (String.◌∷◌ c p) (String.◌∷◌ d s) =
    let rest = after_prefix p s in if String.◌∷◌ c "" == String.◌∷◌ d "" then rest else none

-- `\d+ 版。$`
unfoldable pub numbered : String → Bool
unfolding digits_of after_digits
numbered s = truthy (digits_of s) && (after_digits s == " 版。")

unfoldable pub number_after : Option String → Bool
unfolding numbered
number_after none = false
number_after (some rest) = numbered rest

-- PLAN_NOTE_RE
unfoldable pub matches_plan_note : String → Bool
unfolding after_prefix number_after
matches_plan_note s = number_after (after_prefix "计划已更新到第 " s)

unfoldable pub is_plan_notice : String → Bool
unfolding matches_plan_note trim
is_plan_notice content = matches_plan_note (trim content)

digits-after :
    (s : String) → (all_digits (digits_of s) ≡ true) × (digits_of s <> after_digits s ≡ s)
unfolding digits_of after_digits ◌<>◌
digits-after String.[] = (refl, refl)
digits-after (String.◌∷◌ c s) = elim (Bool-cases (is_digit c)) [
  | inl digit ↦
      rw digit (ground (arith, digit, (digits-after s).0), ap (String.◌∷◌ c) (digits-after s).1)
  | inr other ↦ rw other (refl, refl)
]

digits_of-numbered :
    (v : String)
    → all_digits v ≡ true
    → (digits_of (v <> " 版。") ≡ v) × (after_digits (v <> " 版。") ≡ " 版。")
unfolding digits_of after_digits ◌<>◌
digits_of-numbered String.[] h = (refl, refl)
digits_of-numbered (String.◌∷◌ c v) h = elim (Bool-cases (is_digit c)) [
  | inl digit ↦
      let ih = digits_of-numbered v (ground (arith, h, digit)) in
      rw digit (ap (String.◌∷◌ c) ih.0, ih.1)
  | inr other ↦ ground (arith, h, other)
]

after_prefix-append : (p s : String) → after_prefix p (p <> s) ≡ some s
unfolding after_prefix ◌<>◌
after_prefix-append String.[] s = refl
after_prefix-append (String.◌∷◌ c p) s = rw (eq_refl (String.◌∷◌ c "")) (after_prefix-append p s)

abbrev with_head : String → String → String
with_head String.[] x = x
with_head (String.◌∷◌ c s) x = String.◌∷◌ c x

after_prefix-some : (p s rest : String) → after_prefix p s ≡ some rest → s ≡ p <> rest
unfolding after_prefix ◌<>◌
after_prefix-some String.[] s rest h = ap (λ o. o or "") h
after_prefix-some (String.◌∷◌ c p) String.[] rest h = ground arith
after_prefix-some (String.◌∷◌ c p) (String.◌∷◌ d s) rest h =
    elim (Bool-cases (String.◌∷◌ c "" == String.◌∷◌ d "")) [
      | inl same ↦
          sym (ap (λ t. with_head t s) ((eq_iff (String.◌∷◌ c "") (String.◌∷◌ d "")).0 same))
          ∙ ap (String.◌∷◌ c) (after_prefix-some p s rest (sym (rw same refl) ∙ h))
      | inr other ↦ ground (arith, h, other)
    ]

matches-some :
    (s rest : String) → after_prefix "计划已更新到第 " s ≡ some rest → matches_plan_note s ≡ numbered rest
unfolding matches_plan_note number_after
matches-some s rest h = ap number_after h

matches-none : (s : String) → after_prefix "计划已更新到第 " s ≡ none → matches_plan_note s ≡ false
unfolding matches_plan_note number_after
matches-none s h = ap number_after h

numbered_lem :
    (s : String)
    → numbered s ≡ true
    → (all_digits (digits_of s) ≡ true) × (truthy (digits_of s) ≡ true) × (s ≡ digits_of s <> " 版。")
unfolding numbered
numbered_lem s h = (
  (digits-after s).0,
  ground (arith, h),
  sym (digits-after s).1
      ∙ ap (λ t. digits_of s <> t) ((eq_iff (after_digits s) " 版。").0 (ground (arith, h))),
)

numbered-digits :
    (v : String) → all_digits v ≡ true → truthy v ≡ true → numbered (v <> " 版。") ≡ true
unfolding numbered
numbered-digits v h t = rw ((digits_of-numbered v h).0, (digits_of-numbered v h).1, t) refl

-- The pattern accepts exactly the texts that are the sentence with a number in it: a text of one or
-- more decimal digits.
pub matches_plan_note_iff :
    (s : String)
    → (matches_plan_note s ≡ true) ↔ (
        (v : String) × (all_digits v ≡ true) × (truthy v ≡ true) × (s ≡ "计划已更新到第 " <> (v <> " 版。")))
matches_plan_note_iff s = (
  λ h. elim (Option-cases (after_prefix "计划已更新到第 " s)) [
    | inl e ↦ absurd (false≢true (sym (matches-none s e) ∙ h))
    | inr (rest, e) ↦
        let facts = numbered_lem rest (sym (matches-some s rest e) ∙ h) in
        (
          digits_of rest,
          facts.0,
          facts.1,
          after_prefix-some "计划已更新到第 " s rest e ∙ ap (λ t. "计划已更新到第 " <> t) facts.2,
        )
  ],
  λ (v, h, t, e).
      ap matches_plan_note e
      ∙ matches-some _ _ (after_prefix-append "计划已更新到第 " (v <> " 版。"))
      ∙ numbered-digits v h t,
)
  where
    false≢true : false ≢ true
    false≢true e = ground arith
