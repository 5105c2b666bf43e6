-- ===== src/PlanToc/Counted.antt =====
-- The outline of frontend/src/components/dash/planToc.ts, described without its map of counters: the
-- headings outside fences, each numbered by the earlier ones of the same base.
use langgraph_agent.Base.{
  ℕ, ◌+◌, String, ◌<>◌, show, eqb, Option, none, some, List, [], ◌∷◌, ◌++◌, ltb, ◌==◌, eq_iff, ◌or◌,
  trim, truthy, split_lines, if◌then◌else◌, ◌≡◌, refl, sym, ap, ◌∙◌, arith, Bool-cases, inl, inr,
}
use langgraph_agent.Dict.{get, put, get-put, get-empty}
use langgraph_agent.PlanToc.{
  TocItem, TocState, fence_marker, heading, toggled, numbered_slug, base_of, add_heading,
  read_heading, read_as, read_line, read_lines, parse_plan_toc,
}

-- A heading outside fences, with the base of its anchor.
pub record Heading : Type 0 where
  pub line : ℕ
  pub level : ℕ
  pub text : String
  pub base : String

-- How often a base stands in a list.
abbrev pub times : String → List String → ℕ
times base [] = 0
times base (b ∷ bs) = (if b == base then 1 else 0) + times base bs

-- The anchor of a heading after so many of its base.
abbrev pub anchor : String → ℕ → String
anchor base earlier = if eqb earlier 0 then base else base <> "-" <> show (earlier + 1)

-- The items of the headings of levels 2 and 3, after earlier headings with the given bases.
abbrev pub numbered : List String → List Heading → List TocItem
numbered earlier [] = []
numbered earlier (h ∷ hs) =
    let rest = numbered (h.base ∷ earlier) hs in
    if ltb h.level 2
    then rest
    else record {
      level = h.level;
      text = h.text;
      slug = anchor h.base (times h.base earlier);
      line = h.line;
    }
      ∷ rest

numbered_slug-anchor :
    (base : String) (earlier : ℕ) → numbered_slug base (earlier + 1) ≡ anchor base earlier
numbered_slug-anchor base earlier = elim (Bool-cases (eqb earlier 0)) [
  | inl first ↦ ground (arith, first)
  | inr again ↦ ground (arith, again)
]

append_assoc : (xs ys zs : List TocItem) → (xs ++ ys) ++ zs ≡ xs ++ (ys ++ zs)
append_assoc [] ys zs = refl
append_assoc (x ∷ xs) ys zs = ap (x ∷◌) (append_assoc xs ys zs)

append_nil : (xs : List TocItem) → xs ++ [] ≡ xs
append_nil [] = refl
append_nil (z ∷ xs) = ap (z ∷◌) (append_nil xs)

module _ (heading_text slugify : String → String) where
  abbrev pub heading_of : ℕ → ℕ × String → List Heading
  heading_of line (level, raw) =
      if truthy (heading_text raw)
      then record {
        line = line;
        level = level;
        text = heading_text raw;
        base = base_of heading_text slugify line (heading_text raw);
      }
        ∷ []
      else []

  -- The headings of one line, if no fence is open.
  abbrev pub headings_in : ℕ → Option (ℕ × String) → List Heading
  headings_in line none = []
  headings_in line (some h) = heading_of line h

  -- The same, by what the line is.
  abbrev pub headings_at : ℕ → Option ℕ → Option ℕ → String → List Heading
  headings_at line (some marker) fence text = []
  headings_at line none (some open_marker) text = []
  headings_at line none none text = headings_in line (heading (trim text))

  abbrev pub fence_after : Option ℕ → Option ℕ → Option ℕ
  fence_after none fence = fence
  fence_after (some marker) fence = toggled marker fence

  abbrev pub headings : ℕ → Option ℕ → List String → List Heading
  headings line fence [] = []
  headings line fence (text ∷ texts) =
      headings_at line (fence_marker (trim text)) fence text
      ++ headings (line + 1) (fence_after (fence_marker (trim text)) fence) texts

  -- The counters are the numbers of the earlier headings.
  abbrev Counts : TocState → List String → Type 0
  Counts s earlier = (base : String) → (get s.used base or 0) ≡ times base earlier

  Counts-put :
      (s : TocState) (earlier : List String) (b : String)
      → Counts s earlier
      → (base : String)
      → (get (put s.used b ((get s.used b or 0) + 1)) base or 0) ≡ times base (b ∷ earlier)
  Counts-put s earlier b counts base = elim (Bool-cases (b == base)) [
    | inl same ↦
        rw (get-put s.used b base ((get s.used b or 0) + 1), same)
          (ground (arith, counts b, counts base, eq_iff b base))
    | inr other ↦
        rw (get-put s.used b base ((get s.used b or 0) + 1), other) (counts base ∙ ground arith)
  ]

  -- The bases that are counted after some headings.
  abbrev counted : List String → List Heading → List String
  counted earlier [] = earlier
  counted earlier (h ∷ hs) = counted (h.base ∷ earlier) hs

  -- What a line leaves: the items that it adds, the counters, and the fence.
  record Read (s t : TocState) (earlier : List String) (hs : List Heading) (fence : Option ℕ)
      : Type 0 where
    pub items : t.items ≡ s.items ++ numbered earlier hs
    pub counts : Counts t (counted earlier hs)
    pub fenced : t.fence ≡ fence

  Read-nothing :
      (s : TocState) (earlier : List String) → Counts s earlier → Read s s earlier [] s.fence
  Read-nothing s earlier counts = record {
    items = sym (append_nil s.items);
    counts = counts;
    fenced = refl;
  }

  Read-add_heading :
      (line level : ℕ) (text : String) (s : TocState) (earlier : List String)
      → Counts s earlier
      → Read s
          (add_heading heading_text slugify line level text s)
          earlier
          (record {
            line = line;
            level = level;
            text = text;
            base = base_of heading_text slugify line text;
          }
            ∷ [])
          s.fence
  unfolding add_heading
  Read-add_heading line level text s earlier counts = elim (Bool-cases (ltb level 2)) [
    | inl top ↦ record {
      items = rw top (sym (append_nil s.items));
      counts = rw top (Counts-put s earlier (base_of heading_text slugify line text) counts);
      fenced = rw top refl;
    }
    | inr sub ↦ record {
      items =
          rw
            (
              sub,
              counts (base_of heading_text slugify line text),
              numbered_slug-anchor (base_of heading_text slugify line text)
                  (times (base_of heading_text slugify line text) earlier),
            )
            refl;
      counts = rw sub (Counts-put s earlier (base_of heading_text slugify line text) counts);
      fenced = rw sub refl;
    }
  ]

  -- Headings before others.
  numbered-append :
      (earlier : List String) (hs gs : List Heading)
      → numbered earlier (hs ++ gs) ≡ numbered earlier hs ++ numbered (counted earlier hs) gs
  numbered-append earlier [] gs = refl
  numbered-append earlier (h ∷ hs) gs = elim (Bool-cases (ltb h.level 2)) [
    | inl top ↦ rw top (numbered-append (h.base ∷ earlier) hs gs)
    | inr sub ↦ rw (sub, numbered-append (h.base ∷ earlier) hs gs) refl
  ]

  Read-heading :
      (line : ℕ) (h : Option (ℕ × String)) (s : TocState) (earlier : List String)
      → Counts s earlier
      → Read s (read_heading heading_text slugify line h s) earlier (headings_in line h) s.fence
  unfolding read_heading
  Read-heading line none s earlier counts = Read-nothing s earlier counts
  Read-heading line (some (level, raw)) s earlier counts =
      elim (Bool-cases (truthy (heading_text raw))) [
        | inl named ↦ rw named (Read-add_heading line level (heading_text raw) s earlier counts)
        | inr unnamed ↦ rw unnamed (Read-nothing s earlier counts)
      ]

  Read-as :
      (line : ℕ) (text : String) (marker fence : Option ℕ) (s : TocState) (earlier : List String)
      → s.fence ≡ fence
      → Counts s earlier
      → Read s
          (read_as heading_text slugify line text marker fence s)
          earlier
          (headings_at line marker fence text)
          (fence_after marker fence)
  unfolding read_as
  Read-as line text (some marker) fence s earlier e counts = record {
    items = sym (append_nil s.items);
    counts = counts;
    fenced = refl;
  }
  Read-as line text none (some open_marker) s earlier e counts = record {
    items = sym (append_nil s.items);
    counts = counts;
    fenced = e;
  }
  Read-as line text none none s earlier e counts =
      rw (sym e) (Read-heading line (heading (trim text)) s earlier counts)

  items-read_lines :
      (line : ℕ) (texts : List String) (s : TocState) (earlier : List String)
      → Counts s earlier
      → (read_lines heading_text slugify line texts s).items
        ≡ s.items ++ numbered earlier (headings line s.fence texts)
  unfolding read_lines read_line
  items-read_lines line [] s earlier counts = sym (append_nil s.items)
  items-read_lines line (text ∷ texts) s earlier counts =
      let marker = fence_marker (trim text) in
      let here = headings_at line marker s.fence text in
      let rest = headings (line + 1) (fence_after marker s.fence) texts in
      let r = Read-as line text marker s.fence s earlier refl counts in
      items-read_lines (line + 1) texts (read_line heading_text slugify line text s)
        (counted earlier here) r.counts
      ∙ rw (r.items, r.fenced)
          (append_assoc s.items (numbered earlier here) (numbered (counted earlier here) rest)
            ∙ ap (s.items ++◌) (sym (numbered-append earlier here rest)))

-- The outline is that of its description: the headings of levels 2 and 3 outside fences, in their order,
-- each with the number of its line and the base of its anchor, which carries a number from its second
-- use on, where a heading of level 1 counts, too; whatever the two text functions are.
pub parse_plan_toc-numbered :
    (heading_text slugify : String → String) (markdown : String)
    → parse_plan_toc heading_text slugify markdown
      ≡ numbered [] (headings heading_text slugify 1 none (split_lines markdown))
unfolding parse_plan_toc
parse_plan_toc-numbered heading_text slugify markdown =
    items-read_lines heading_text slugify 1 (split_lines markdown) _ []
      (λ base. rw (get-empty base) refl)
