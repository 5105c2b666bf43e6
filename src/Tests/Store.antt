-- ===== src/Tests/Store.antt =====
-- The store's theorems at a store that a page has reached.
use langgraph_agent.Base.{false, none, some, [], ◌∷◌, ◌≡◌, refl}
use langgraph_agent.Types.{Payload, type_of}
use langgraph_agent.EventLedger.{is_ledger_type}
use langgraph_agent.TaskStore.{
  TaskState, Action, Reachable, step, initial_state, apply_event, event_task_id,
  remove_workspace_tasks,
}
use langgraph_agent.TaskStore.Invariant.{IsValid}
use langgraph_agent.TaskStore.Invariant.Preserved.{Reachable-IsValid}
use langgraph_agent.TaskStore.Rows.{Filed, apply_event-Filed}
use langgraph_agent.TaskStore.Isolation.{SameTask, apply_event-other}
use langgraph_agent.TaskStore.Removal.{Gone, Kept, Belongs, hits, remove_workspace_tasks_lem}
use langgraph_agent.Tests.Data.{task_of, two_steps, frame, step_two, squeezed, differ}

abbrev listed : TaskState
listed = step (Action.set_tasks (two_steps ∷ task_of "t2" "/other" [] ∷ [])) (initial_state none)

abbrev selected : TaskState
selected = step (Action.set_current_task (some "t1")) listed

abbrev marked : TaskState
marked = step (Action.apply_event (frame "t1" (Payload.context_compressed (squeezed 3)))) selected

abbrev marked_reached : Reachable none marked
marked_reached =
    Reachable.next (Action.apply_event (frame "t1" (Payload.context_compressed (squeezed 3)))) (
      Reachable.next (Action.set_current_task (some "t1")) (
        Reachable.next (Action.set_tasks (two_steps ∷ task_of "t2" "/other" [] ∷ []))
          Reachable.start))

Reachable-IsValid_example : IsValid marked
Reachable-IsValid_example = Reachable-IsValid none marked_reached

abbrev marked-IsValid : IsValid marked
marked-IsValid = Reachable-IsValid none marked_reached

apply_event-Filed_example :
    Filed marked (apply_event step_two marked) (event_task_id marked step_two) step_two
unfolding is_ledger_type type_of event_task_id
apply_event-Filed_example = apply_event-Filed step_two marked marked-IsValid refl

apply_event-other_example : SameTask (apply_event step_two marked) marked "t2"
unfolding event_task_id
apply_event-other_example = apply_event-other step_two marked "t2" (differ "t1" "t2" refl)

remove_workspace_tasks_lem_example :
    (Belongs "/work" marked "t1" → Gone (remove_workspace_tasks "/work" marked) "t1")
    × (hits "/work" "t1" marked ≡ false → Kept (remove_workspace_tasks "/work" marked) marked "t1")
remove_workspace_tasks_lem_example = remove_workspace_tasks_lem "/work" marked "t1" marked-IsValid
