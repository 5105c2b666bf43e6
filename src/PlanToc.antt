-- ===== src/PlanToc.antt =====
-- frontend/src/components/dash/planToc.ts: the outline of a plan. `heading_text` takes the markup out of a
-- heading and `slugify` makes an anchor of it, both by regular expressions over Unicode classes.
pub mod Counted
pub mod Lines
pub mod Headings
pub mod Outline
use Prim.Native.Char.{Char, code}
use langgraph_agent.Base.{
  ℕ, zero, suc, ◌+◌, String, Bool, true, false, not, ◌&&◌, ◌||◌, Option, none, some, List, [], ◌∷◌,
  ◌++◌, eqb, leb, ltb, ◌<>◌, show, is_space, split_lines, ◌or◌, or_text, trim, truthy,
  if◌then◌else◌,
}
use langgraph_agent.Dict
use langgraph_agent.Dict.{Dict, get, put}

pub record TocItem : Type 0 where
  pub level : ℕ
  pub text : String
  pub slug : String
  pub line : ℕ

-- `/^(`{3,}|~{3,})/`: the character of a fence.
unfoldable pub fence_marker : String → Option ℕ
fence_marker (String.◌∷◌ a (String.◌∷◌ b (String.◌∷◌ c s))) =
    if (eqb (code a) 96 || eqb (code a) 126) && eqb (code b) (code a) && eqb (code c) (code a)
    then some (code a)
    else none
fence_marker _ = none

-- What follows the number signs that a line begins with, and how many there are.
unfoldable pub hashes : String → ℕ × String
hashes String.[] = (0, String.[])
hashes (String.◌∷◌ c s) =
    let rest = hashes s in if eqb (code c) b'#' then (rest.0 + 1, rest.1) else (0, String.◌∷◌ c s)

unfoldable pub drop_spaces : String → String
drop_spaces String.[] = String.[]
drop_spaces (String.◌∷◌ c s) =
    let rest = drop_spaces s in if is_space (code c) then rest else String.◌∷◌ c s

abbrev pub begins_with_space : String → Bool
begins_with_space String.[] = false
begins_with_space (String.◌∷◌ c s) = is_space (code c)

-- No line terminator, which `.` does not match.
unfoldable pub one_line : String → Bool
one_line String.[] = true
one_line (String.◌∷◌ c s) =
    not (eqb (code c) 10 || eqb (code c) 13 || eqb (code c) 0x2028 || eqb (code c) 0x2029)
    && one_line s

-- `/^(#{1,3})\s+(.+)$/`: the level and the text behind it.
unfoldable pub heading : String → Option (ℕ × String)
unfolding hashes drop_spaces one_line
heading trimmed =
    let (level, rest) = hashes trimmed in
    let text = drop_spaces rest in
    if leb 1 level && leb level 3 && begins_with_space rest && truthy text && one_line text
    then some (level, text)
    else none

pub record TocState : Type 0 where
  pub items : List TocItem
  pub used : Dict ℕ
  pub fence : Option ℕ

-- The fence after a line that is one.
unfoldable pub toggled : ℕ → Option ℕ → Option ℕ
toggled marker none = some marker
toggled marker (some open_marker) = if eqb open_marker marker then none else some open_marker

abbrev pub numbered_slug : String → ℕ → String
numbered_slug base seen = if ltb 1 seen then base <> "-" <> show seen else base

module _ (heading_text slugify : String → String) where
  -- What the anchor of a heading begins with.
  unfoldable pub base_of : ℕ → String → String
  unfolding ◌<>◌ show
  base_of line text = or_text (slugify text) ("section-" <> show line)

  -- A heading counts for the slugs whatever its level; the outline lists the levels 2 and 3.
  unfoldable pub add_heading : ℕ → ℕ → String → TocState → TocState
  unfolding base_of ◌<>◌ show
  add_heading line level text s =
      let base = base_of line text in
      let seen = (get s.used base or 0) + 1 in
      let counted = record s { used = put s.used base seen } in
      if ltb level 2 then counted else record counted {
        items =
            s.items
            ++ record { level = level; text = text; slug = numbered_slug base seen; line = line }
              ∷ [];
      }

  unfoldable pub read_heading : ℕ → Option (ℕ × String) → TocState → TocState
  unfolding add_heading
  read_heading line none s = s
  read_heading line (some (level, raw)) s =
      if truthy (heading_text raw) then add_heading line level (heading_text raw) s else s

  -- One line, by its number, given what fence it is, and what fence is open.
  unfoldable pub read_as : ℕ → String → Option ℕ → Option ℕ → TocState → TocState
  unfolding toggled heading read_heading trim
  read_as line text (some marker) fence s = record s { fence = toggled marker fence }
  read_as line text none (some open_marker) s = s
  read_as line text none none s = read_heading line (heading (trim text)) s

  unfoldable pub read_line : ℕ → String → TocState → TocState
  unfolding fence_marker read_as trim
  read_line line text s = read_as line text (fence_marker (trim text)) s.fence s

  unfoldable pub read_lines : ℕ → List String → TocState → TocState
  unfolding read_line
  read_lines line [] s = s
  read_lines line (text ∷ texts) s = read_lines (line + 1) texts (read_line line text s)

  -- A carriage return before the newline is trimmed with its line.
  unfoldable pub parse_plan_toc : String → List TocItem
  unfolding read_lines split_lines
  parse_plan_toc markdown =
      (read_lines 1 (split_lines markdown)
        (record { items = []; used = Dict.empty; fence = none })).items
