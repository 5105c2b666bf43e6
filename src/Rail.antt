-- ===== src/Rail.antt =====
-- frontend/src/components/rail/group.ts, and `basename` of frontend/src/lib/format.ts.
pub mod Workspaces
use Prim.Native.Char.{Char, code}
use langgraph_agent.Base.{
  String, Bool, true, false, ◌&&◌, ◌||◌, List, [], ◌∷◌, ◌++◌, any, map, filter, eqb, Option, none,
  some, or_else, ◌or◌, or_text, trim, truthy, ◌==◌, if◌then◌else◌, ◌≡◌, refl, arith,
}
use langgraph_agent.Types.{Task}
use langgraph_agent.Grouping.{Group, group_by}
use langgraph_agent.TaskStore.{RailFilter}

-- `/[\\/]/`
abbrev is_separator : Char → Bool
is_separator c = eqb (code c) b'/' || eqb (code c) 92

-- `.replace(/[\\/]+$/, "")`: a separator is kept when something else follows.
unfoldable pub strip_separators : String → String
strip_separators String.[] = String.[]
strip_separators (String.◌∷◌ c s) =
    let rest = strip_separators s in
    if is_separator c && (rest == "") then String.[] else String.◌∷◌ c rest

-- What follows the last separator, if there is one.
unfoldable pub after_separator : String → Option String
after_separator String.[] = none
after_separator (String.◌∷◌ c s) =
    or_else (after_separator s) (if is_separator c then some s else none)

unfoldable pub basename : String → String
unfolding trim strip_separators after_separator
basename path =
    let trimmed = trim path in
    let stripped = strip_separators trimmed in
    if truthy trimmed
    then if truthy stripped then after_separator stripped or stripped else trimmed
    else ""

unfoldable pub workspace_name : String → String
unfolding basename
workspace_name workspace = or_text (basename workspace) "默认目录"

pub record TaskGroup : Type 0 where
  pub workspace : String
  pub label : String
  pub tasks : List Task

unfoldable pub group_by_workspace : List Task → List TaskGroup
unfolding group_by workspace_name trim
group_by_workspace tasks =
    map (λ g. record { workspace = g.key; label = workspace_name g.key; tasks = g.members })
      (group_by (λ task. trim task.workspace) tasks)

unfoldable pub rail_groups : List Task → RailFilter → List TaskGroup
unfolding group_by_workspace
rail_groups tasks RailFilter.all = group_by_workspace tasks
rail_groups tasks RailFilter.current = record { workspace = ""; label = ""; tasks = tasks } ∷ []
