-- ===== src/FileGroups.antt =====
-- frontend/src/components/dash/fileGroup.ts: the workspace's files by directory.
use Prim.Native.Char.{Char, code}
use langgraph_agent.Base.{
  String, List, [], ◌∷◌, map, filter, Option, none, some, or_else, ◌or◌, eqb, ◌==◌, truthy,
  if◌then◌else◌, ◌≡◌, refl, ◌∙◌, arith,
}
use langgraph_agent.Types.{WorkspaceFile}
use langgraph_agent.Grouping.{Group, group_by}
use langgraph_agent.Grouping.Groups.{members_of, group_by_lem}
use langgraph_agent.Rail.{basename}

pub record FileGroup : Type 0 where
  pub dir : String
  pub label : String
  pub files : List WorkspaceFile

abbrev prefixed : Char → Option String → Option String
prefixed c none = none
prefixed c (some s) = some (String.◌∷◌ c s)

-- `path.slice(0, path.lastIndexOf("/"))`, none when there is no slash.
unfoldable pub before_last_slash : String → Option String
before_last_slash String.[] = none
before_last_slash (String.◌∷◌ c s) =
    or_else (prefixed c (before_last_slash s)) (if eqb (code c) b'/' then some String.[] else none)

-- `cut > 0 ? path.slice(0, cut) : ""`; a cut at 0 leaves the empty text too.
unfoldable pub directory_of : String → String
unfolding before_last_slash
directory_of path = before_last_slash path or ""

unfoldable pub group_files : List WorkspaceFile → List FileGroup
unfolding group_by directory_of basename
group_files files =
    map
      (λ g. record {
        dir = g.key;
        label = if truthy g.key then basename g.key else "根目录";
        files = g.members;
      })
      (group_by (λ file. directory_of file.path) files)

-- The files shown under a directory.
abbrev pub files_in : String → List FileGroup → List WorkspaceFile
files_in dir [] = []
files_in dir (g ∷ groups) = if g.dir == dir then g.files else files_in dir groups

files_in-map :
    (k : String) (groups : List (Group WorkspaceFile))
    → files_in k (
        map
          (λ g. record {
            dir = g.key;
            label = if truthy g.key then basename g.key else "根目录";
            files = g.members;
          })
          groups)
      ≡ members_of k groups
files_in-map k [] = refl
files_in-map k (g ∷ groups) = ground (arith, files_in-map k groups)

-- The files under a directory are those whose path ends there, in the list's order.
pub files_in-group_files :
    (files : List WorkspaceFile) (dir : String)
    → files_in dir (group_files files) ≡ filter (λ file. directory_of file.path == dir) files
unfolding group_files
files_in-group_files files dir =
    files_in-map dir (group_by (λ file. directory_of file.path) files)
    ∙ (group_by_lem (λ file. directory_of file.path) files dir).2
