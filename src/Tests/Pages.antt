-- ===== src/Tests/Pages.antt =====
-- The theorems of the page, the plan pane and the client at concrete inputs.
use langgraph_agent.Base.{
  true, none, some, List, [], ◌∷◌, ◌≡◌, refl, ap, ◌∙◌, ◌≤◌, includes, truthy, ◌&&◌,
}
use langgraph_agent.Dict
use langgraph_agent.Dict.{get, put, get-put}
use langgraph_agent.Types.{pending, type_of}
use langgraph_agent.ReduceTask.{needs_status_refetch, apply_to_task, apply_payload, on_frame}
use langgraph_agent.ApiClient.Answers.{StatusResult, PlanData}
use langgraph_agent.TaskStore.{
  TaskState, Action, step, initial_state, event_task_id, next_task, apply_event,
}
use langgraph_agent.TaskStore.Spec.{views_of}
use langgraph_agent.TaskStore.Refinement.{run_store, replay, no_views, run_store_refines}
use langgraph_agent.PlanPane.{
  PaneState, PaneCall, pane_step, readable, version_of, initial_pane, start_load, Save,
}
use langgraph_agent.PlanPane.Versions.{LoadSettled, load_settles}
use langgraph_agent.FailureStates.Details.{plan_load_state}
use langgraph_agent.TaskView.Refetch.{RefetchState, frame, run_page, wanted, refetchable, id_of}
use langgraph_agent.TaskView.Refetch.Once.{times, then_wanted, times-run_page, times-wanted}
use langgraph_agent.TaskStore.Invariant.{IsValid, put-IsKeyed, initial_state-IsValid}
use langgraph_agent.EventLedger.{is_ledger_type}
use langgraph_agent.TaskStore.Rows.{apply_event-Filed}
use langgraph_agent.TaskView.Dash.{PageCall, PageState, initial_page, page_step}
use langgraph_agent.TaskView.Dash.Reachable.{
  PageReachable, PageValid, PageReachable-PageValid, offered,
}
use langgraph_agent.Tests.Data.{two_steps, step_two}

abbrev calls : List Action
calls =
    Action.set_tasks (two_steps ∷ [])
    ∷ Action.set_current_task (some "t1")
    ∷ Action.apply_event step_two
    ∷ Action.remove_task "t1"
    ∷ []

run_store_refines_example : views_of (run_store calls (initial_state none)) ≡ replay calls no_views
run_store_refines_example = run_store_refines none calls refl

abbrev opened : PageState
opened = page_step (PageCall.file_opened "a.md") (initial_page true true)

opened_reached : PageReachable opened
unfolding offered
opened_reached =
    PageReachable.next (PageCall.file_opened "a.md") refl (PageReachable.start true true)

PageReachable-PageValid_example : PageValid opened
PageReachable-PageValid_example = PageReachable-PageValid opened_reached

-- A store that holds one snapshot, and the pane of its plan while it is read.
abbrev held : TaskState
held = record (initial_state none) {
  detail = put Dict.empty "t1" (record two_steps { status = pending });
}

abbrev pane : PaneState
pane = start_load (initial_pane "t1" held)

abbrev plan_answer : StatusResult PlanData
plan_answer = record {
  status = 200;
  body = some (record { text = "plan"; version = 5 });
  detail = "";
}

abbrev edited : Save
edited = record { task_id = "t1"; text = "plan, changed"; loaded = "plan" }

held_task : get held.detail "t1" ≡ some (record two_steps { status = pending })
unfolding initial_state
held_task = get-put Dict.empty "t1" "t1" (record two_steps { status = pending })

load_settles_example :
    LoadSettled pane
      (pane_step (PaneCall.load_answered pane.reads plan_answer) pane).1
      2
      (record { text = "plan"; version = 5 })
unfolding initial_pane start_load readable plan_load_state
load_settles_example =
    load_settles pane (record two_steps { status = pending }) plan_answer
      (record { text = "plan"; version = 5 }) held_task (ap version_of held_task) refl refl

abbrev before : RefetchState
before = record { store = held; refetched = [] }

times-run_page_example :
    (times "t1" (run_page (frame step_two ∷ frame step_two ∷ []) before).0 ≤ 1)
    × (includes [] "t1" ≡ true
        → times "t1" (run_page (frame step_two ∷ frame step_two ∷ []) before).0 ≡ 0)
times-run_page_example = times-run_page "t1" (frame step_two ∷ frame step_two ∷ []) before

held-IsValid : IsValid held
unfolding initial_state
held-IsValid = record {
  keyed =
      put-IsKeyed Dict.empty "t1" (record two_steps { status = pending }) refl
        (initial_state-IsValid none).keyed;
  events = (initial_state-IsValid none).events;
  markers = (initial_state-IsValid none).markers;
}

step_filed : (is_ledger_type (type_of step_two) && truthy (event_task_id held step_two)) ≡ true
unfolding is_ledger_type type_of event_task_id
step_filed = refl

step_task :
    next_task held "t1" step_two
    ≡ apply_to_task (some (record two_steps { status = pending })) "t1" step_two
unfolding next_task
step_task = rw held_task refl

step_snapshot : get (apply_event step_two held).detail "t1" ≡ some (next_task held "t1" step_two)
unfolding event_task_id
step_snapshot = (apply_event-Filed step_two held held-IsValid step_filed).detail

step_refetchable :
    refetchable "t1" step_two
      (some (apply_to_task (some (record two_steps { status = pending })) "t1" step_two))
    ≡ true
unfolding refetchable needs_status_refetch apply_to_task apply_payload on_frame
step_refetchable = refl

step_wanted : then_wanted step_two before ≡ true
unfolding wanted id_of step
step_wanted = ap (refetchable "t1" step_two) (step_snapshot ∙ ap some step_task) ∙ step_refetchable

times-wanted_example : times "t1" (run_page (frame step_two ∷ frame step_two ∷ []) before).0 ≡ 1
unfolding id_of run_page
times-wanted_example = times-wanted [] step_two (frame step_two ∷ []) before step_wanted refl
