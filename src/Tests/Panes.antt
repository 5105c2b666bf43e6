-- ===== src/Tests/Panes.antt =====
-- The rail, the tabs and the faces at concrete inputs.
use langgraph_agent.Base.{String, true, List, [], ◌∷◌, filter, any, ◌≡◌, ◌≢◌, ◌==◌, refl}
use langgraph_agent.Types.{Task}
use langgraph_agent.Grouping.{group_by}
use langgraph_agent.Grouping.Groups.{distinct_keys, has_key, members_of, group_by_lem}
use langgraph_agent.DashTabs.{file_tab_label}
use langgraph_agent.DashTabs.Labels.{file_tab_label-distinct}
use langgraph_agent.Tests.Data.{task_of, two_steps, differ}

abbrev rows : List Task
rows = two_steps ∷ task_of "t2" "/other" [] ∷ task_of "t3" "/work" [] ∷ []

abbrev path_of : Task → String
path_of task = task.workspace

group_by_lem_example :
    (distinct_keys (group_by path_of rows) ≡ true)
    × (has_key "/work" (group_by path_of rows) ≡ any (λ x. path_of x == "/work") rows)
    × (members_of "/work" (group_by path_of rows) ≡ filter (λ x. path_of x == "/work") rows)
group_by_lem_example = group_by_lem path_of rows "/work"

abbrev opened : List String
opened = "a/README.md" ∷ "b/README.md" ∷ []

file_tab_label-distinct_example :
    file_tab_label "a/README.md" opened ≢ file_tab_label "b/README.md" opened
file_tab_label-distinct_example =
    file_tab_label-distinct "a/README.md" "b/README.md" opened refl refl
      (differ "a/README.md" "b/README.md" refl)
