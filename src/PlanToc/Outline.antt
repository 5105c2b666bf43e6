-- ===== src/PlanToc/Outline.antt =====
-- The outline of frontend/src/components/dash/planToc.ts from what its lines are.
use langgraph_agent.Base.{
  ℕ, ◌+◌, String, true, false, Option, none, some, List, [], ◌∷◌, ◌++◌, eqb, eqb_iff, ◌<>◌, show,
  or_text, trim, truthy, split_lines, ◌≡◌, refl, ap, ◌∙◌, inl, inr, Bool-cases,
}
use langgraph_agent.PlanToc.{fence_marker, heading, toggled, base_of, parse_plan_toc}
use langgraph_agent.PlanToc.Counted.{
  Heading, numbered, headings_in, headings_at, fence_after, headings, parse_plan_toc-numbered,
}
use langgraph_agent.PlanToc.Lines.{
  Marker, is_fence, IsHeading, fence_char_found, fence_absent, fence_differs,
}
use langgraph_agent.PlanToc.Headings.{heading-IsHeading, IsHeading-heading}

module _ (heading_text slugify : String → String) where
  -- `Outline fence line lines found`: the lines from the one of that number on, where `fence` is the
  -- character of the fence that is open, hold the headings `found`. A fence is closed by a line of its own
  -- character alone, and what stands in it is no heading.
  pub data Outline : Option ℕ → ℕ → List String → List Heading → Type 0 where
    done : {fence : Option ℕ} {line : ℕ} → Outline fence line [] []
    opens :
        {line : ℕ} {text : String} {lines : List String} {found : List Heading} (k : ℕ)
        → Marker k
        → is_fence k (trim text) ≡ true
        → Outline (some k) (line + 1) lines found
        → Outline none line (text ∷ lines) found
    closes :
        {line : ℕ} {text : String} {lines : List String} {found : List Heading} {k : ℕ}
        → is_fence k (trim text) ≡ true
        → Outline none (line + 1) lines found
        → Outline (some k) line (text ∷ lines) found
    inside :
        {line : ℕ} {text : String} {lines : List String} {found : List Heading} {k : ℕ}
        → is_fence k (trim text) ≡ false
        → Outline (some k) (line + 1) lines found
        → Outline (some k) line (text ∷ lines) found
    other :
        {line : ℕ} {text : String} {lines : List String} {found : List Heading}
        → (is_fence 96 (trim text) ≡ false) × (is_fence 126 (trim text) ≡ false)
        → ((level : ℕ) (raw : String) → ¬ IsHeading (trim text) level raw)
        → Outline none (line + 1) lines found
        → Outline none line (text ∷ lines) found
    unnamed :
        {line : ℕ} {text : String} {lines : List String} {found : List Heading} (level : ℕ)
        (raw : String)
        → (is_fence 96 (trim text) ≡ false) × (is_fence 126 (trim text) ≡ false)
        → IsHeading (trim text) level raw
        → truthy (heading_text raw) ≡ false
        → Outline none (line + 1) lines found
        → Outline none line (text ∷ lines) found
    titled :
        {line : ℕ} {text : String} {lines : List String} {found : List Heading} (level : ℕ)
        (raw : String)
        → (is_fence 96 (trim text) ≡ false) × (is_fence 126 (trim text) ≡ false)
        → IsHeading (trim text) level raw
        → truthy (heading_text raw) ≡ true
        → Outline none (line + 1) lines found
        → Outline none line (text ∷ lines) (
            record {
              line = line;
              level = level;
              text = heading_text raw;
              base = or_text (slugify (heading_text raw)) ("section-" <> show line);
            }
            ∷ found)

  -- The headings that the code's own fences and patterns find.
  abbrev coded : ℕ → Option ℕ → List String → List Heading
  coded = headings heading_text slugify

  no_fence :
      (s : String) → fence_marker s ≡ none → (is_fence 96 s ≡ false) × (is_fence 126 s ≡ false)
  no_fence s h = (fence_absent s 96 h (inl refl), fence_absent s 126 h (inr refl))

  -- A line outside fences that is none.
  Outline-line :
      (line : ℕ) (text : String) (lines : List String) (found : List Heading)
      → fence_marker (trim text) ≡ none
      → (h : Option (ℕ × String)) → heading (trim text) ≡ h
      → Outline none (line + 1) lines found
      → Outline none line (text ∷ lines) (headings_in heading_text slugify line h ++ found)
  unfolding base_of
  Outline-line line text lines found plain none missed rest =
      other (no_fence (trim text) plain)
        (λ level raw is. cc (missed, IsHeading-heading (trim text) level raw is)) rest
  Outline-line line text lines found plain (some (level, raw)) met rest =
      elim (Bool-cases (truthy (heading_text raw))) [
        | inl named ↦ rw named (
            titled level raw (no_fence (trim text) plain)
              (heading-IsHeading (trim text) level raw met) named rest)
        | inr blank ↦ rw blank (
            unnamed level raw (no_fence (trim text) plain)
              (heading-IsHeading (trim text) level raw met) blank rest)
      ]

  -- A line in a fence, by the fence that is open after it.
  abbrev Goes : ℕ → ℕ → String → List String → Option ℕ → Type 0
  Goes line k text lines fence =
      Outline fence (line + 1) lines (coded (line + 1) fence lines)
      → Outline (some k) line (text ∷ lines) (coded (line + 1) fence lines)

  Outline-fenced :
      (line k : ℕ) (text : String) (lines : List String) (m : Option ℕ)
      → Marker k
      → fence_marker (trim text) ≡ m
      → Goes line k text lines (fence_after heading_text slugify m (some k))
  unfolding toggled
  Outline-fenced line k text lines none marker is =
      λ rest. inside (fence_absent (trim text) k is marker) rest
  Outline-fenced line k text lines (some m) marker is = elim (Bool-cases (eqb k m)) [
    | inl same ↦ rw same (λ rest. closes (closing same) rest)
    | inr differs ↦ rw differs (λ rest. inside (fence_differs (trim text) k m found differs) rest)
  ]
    where
      found : is_fence m (trim text) ≡ true
      found = (fence_char_found (trim text) m is).0

      closing : eqb k m ≡ true → is_fence k (trim text) ≡ true
      closing same = ap (λ n. is_fence n (trim text)) ((eqb_iff k m).0 same) ∙ found

  abbrev Open : Option ℕ → Type 0
  Open none = Unit {0}
  Open (some k) = Marker k

  Open-after :
      (s : String) (m fence : Option ℕ)
      → fence_marker s ≡ m
      → Open fence
      → Open (fence_after heading_text slugify m fence)
  unfolding toggled
  Open-after s none fence is marker = marker
  Open-after s (some m) none is marker = (fence_char_found s m is).1
  Open-after s (some m) (some k) is marker = elim (Bool-cases (eqb k m)) [
    | inl same ↦ rw same tt
    | inr differs ↦ rw differs marker
  ]

  -- One line, by what fence it is and what fence is open.
  Outline-text :
      (line : ℕ) (text : String) (lines : List String) (m fence : Option ℕ)
      → fence_marker (trim text) ≡ m
      → Open fence
      → Outline
          (fence_after heading_text slugify m fence)
          (line + 1)
          lines
          (coded (line + 1) (fence_after heading_text slugify m fence) lines)
      → Outline fence line (text ∷ lines) (
          headings_at heading_text slugify line m fence text
          ++ coded (line + 1) (fence_after heading_text slugify m fence) lines)
  unfolding toggled
  Outline-text line text lines none none is marker rest =
      Outline-line line text lines (coded (line + 1) none lines) is (heading (trim text)) refl rest
  Outline-text line text lines (some m) none is marker rest =
      opens m (fence_char_found (trim text) m is).1 (fence_char_found (trim text) m is).0 rest
  Outline-text line text lines none (some k) is marker rest =
      Outline-fenced line k text lines none marker is rest
  Outline-text line text lines (some m) (some k) is marker rest =
      Outline-fenced line k text lines (some m) marker is rest

  Outline-coded :
      (line : ℕ) (fence : Option ℕ) (lines : List String)
      → Open fence
      → Outline fence line lines (coded line fence lines)
  Outline-coded line fence [] marker = done
  Outline-coded line fence (text ∷ lines) marker =
      let m = fence_marker (trim text) in
      let after = fence_after heading_text slugify m fence in
      Outline-text line text lines m fence refl marker
        (Outline-coded (line + 1) after lines (Open-after (trim text) m fence refl marker))

-- The outline is that of the plan's headings as its lines hold them: outside fences, where a line of the
-- same three characters closes a fence, the lines of one to three number signs, spaces and a text. Those
-- of levels 2 and 3 are listed in their order, each with the number of its line and its anchor, which
-- carries a number from its second use on, where a heading of level 1 counts, too; whatever the two text
-- functions are.
pub parse_plan_toc-Outline :
    (heading_text slugify : String → String) (markdown : String)
    → (found : List Heading) × Outline heading_text slugify none 1 (split_lines markdown) found
      × (parse_plan_toc heading_text slugify markdown ≡ numbered [] found)
parse_plan_toc-Outline heading_text slugify markdown = (
  headings heading_text slugify 1 none (split_lines markdown),
  Outline-coded heading_text slugify 1 none (split_lines markdown) tt,
  parse_plan_toc-numbered heading_text slugify markdown,
)
