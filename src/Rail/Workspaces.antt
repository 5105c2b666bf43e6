-- ===== src/Rail/Workspaces.antt =====
-- frontend/src/components/rail/group.ts: where a row of the history is shown.
use langgraph_agent.Base.{
  String, Bool, true, not, ◌&&◌, List, [], ◌∷◌, any, map, filter, trim, ◌==◌, if◌then◌else◌, ◌≡◌,
  refl, ◌∙◌, arith,
}
use langgraph_agent.Types.{Task}
use langgraph_agent.Grouping.{Group, group_by}
use langgraph_agent.Grouping.Groups.{members_of, has_key, distinct_keys, group_by_lem}
use langgraph_agent.Rail.{TaskGroup, workspace_name, group_by_workspace}

-- The rows shown under a directory.
abbrev pub tasks_in : String → List TaskGroup → List Task
tasks_in workspace [] = []
tasks_in workspace (g ∷ groups) =
    if g.workspace == workspace then g.tasks else tasks_in workspace groups

-- No directory has two groups.
abbrev pub distinct_workspaces : List TaskGroup → Bool
distinct_workspaces [] = true
distinct_workspaces (g ∷ groups) =
    not (any (λ o. o.workspace == g.workspace) groups) && distinct_workspaces groups

abbrev as_group : Group Task → TaskGroup
as_group g = record { workspace = g.key; label = workspace_name g.key; tasks = g.members }

tasks_in-map :
    (k : String) (groups : List (Group Task))
    → tasks_in k (map as_group groups) ≡ members_of k groups
tasks_in-map k [] = refl
tasks_in-map k (g ∷ groups) = ground (arith, tasks_in-map k groups)

any-workspace :
    (k : String) (groups : List (Group Task))
    → any (λ o. o.workspace == k) (map as_group groups) ≡ has_key k groups
any-workspace k [] = refl
any-workspace k (g ∷ groups) = ground (arith, any-workspace k groups)

distinct-map :
    (groups : List (Group Task)) → distinct_workspaces (map as_group groups) ≡ distinct_keys groups
distinct-map [] = refl
distinct-map (g ∷ groups) = ground (arith, distinct-map groups, any-workspace g.key groups)

-- The rows under a directory are the tasks whose trimmed workspace it is, in the list's order, and no
-- directory has two groups.
pub group_by_workspace_lem :
    (tasks : List Task) (workspace : String)
    → (tasks_in workspace (group_by_workspace tasks)
        ≡ filter (λ task. trim task.workspace == workspace) tasks)
      × (distinct_workspaces (group_by_workspace tasks) ≡ true)
unfolding group_by_workspace
group_by_workspace_lem tasks workspace = (
  tasks_in-map workspace (group_by (λ task. trim task.workspace) tasks)
      ∙ (group_by_lem (λ task. trim task.workspace) tasks workspace).2,
  distinct-map (group_by (λ task. trim task.workspace) tasks)
      ∙ (group_by_lem (λ task. trim task.workspace) tasks workspace).0,
)
