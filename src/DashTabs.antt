-- ===== src/DashTabs.antt =====
-- frontend/src/lib/dashTabs.ts: the tabs of the right column.
pub mod Closing
pub mod Labels
use Prim.Native.Char.{code}
use langgraph_agent.Base.{
  ℕ, zero, suc, ◌-◌, String, Bool, true, false, not, ◌&&◌, Option, none, some, List, [], ◌∷◌, ◌++◌,
  filter, any, get_elem?, includes, eqb, ◌==◌, ◌or◌, or_else, or_text, if◌then◌else◌,
}

-- `file:${path}` is the tab of a file; no other tab begins with that prefix.
pub data DashTab : Type 0 where
  files plan events : DashTab
  file : String → DashTab

unfoldable pub file_tab_id : String → DashTab
file_tab_id path = file path

unfoldable pub file_tab_path : DashTab → Option String
file_tab_path (file path) = some path
file_tab_path _ = none

-- What follows the last slash, if there is one: `path.split("/").pop()`.
unfoldable pub after_last_slash : String → Option String
after_last_slash String.[] = none
after_last_slash (String.◌∷◌ c s) =
    or_else (after_last_slash s) (if eqb (code c) b'/' then some s else none)

-- `path.split("/").pop() || path`
unfoldable pub base_name : String → String
unfolding after_last_slash
base_name path = or_text (after_last_slash path or path) path

unfoldable pub file_tab_label : String → List String → String
unfolding base_name
file_tab_label path opened =
    if any (λ other. not (other == path) && (base_name other == base_name path)) opened
    then path
    else base_name path

unfoldable pub open_file_tab : List String → String → List String
open_file_tab opened path = if includes opened path then opened else opened ++ path ∷ []

unfoldable pub close_file_tab : List String → String → List String
close_file_tab opened path = filter (λ o. not (o == path)) opened

abbrev next_index : Option ℕ → Option ℕ
next_index none = none
next_index (some i) = some (suc i)

-- `opened.indexOf(path)`; -1 is `none`.
unfoldable pub index_of : List String → String → Option ℕ
index_of [] path = none
index_of (o ∷ os) path =
    let rest = next_index (index_of os path) in if o == path then some zero else rest

-- `remaining[index - 1]`
unfoldable pub left_of : List String → ℕ → Option String
left_of remaining zero = none
left_of remaining (suc i) = get_elem? remaining i

abbrev pub tab_or_files : Option String → DashTab
tab_or_files none = files
tab_or_files (some path) = file_tab_id path

abbrev pub is_file : DashTab → String → Bool
is_file tab path = elim (file_tab_path tab) [ none ↦ false | some p ↦ p == path ]

unfoldable pub tab_after_closing : List String → String → DashTab → DashTab
unfolding index_of left_of close_file_tab file_tab_path
tab_after_closing opened closed active = elim (index_of opened closed) [
  | none ↦ active
  | some i ↦
      if is_file active closed
      then tab_or_files (
          or_else (left_of (close_file_tab opened closed) i)
            (get_elem? (close_file_tab opened closed) i))
      else active
]
