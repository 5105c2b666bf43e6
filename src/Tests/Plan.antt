-- ===== src/Tests/Plan.antt =====
-- The plan pane at a concrete run: the plan of a stopped task is edited, typed into and saved.
use langgraph_agent.Base.{
  ℕ, arith, Bool, ◌&&◌, false, String, true, none, some, [], ◌∷◌, ◌≡◌, refl, ap,
}
use mathlib.Core.Path.{subst}
use langgraph_agent.Dict
use langgraph_agent.Dict.{get, put, get-put}
use langgraph_agent.Types.{Task, interrupted}
use langgraph_agent.ApiClient.Answers.{StatusResult, PlanData}
use langgraph_agent.ApiClient.Requests.{put_plan, get_plan_snapshot}
use langgraph_agent.FailureStates.Details.{plan_load_state}
use langgraph_agent.TaskState.{is_parked}
use langgraph_agent.TaskStore.{TaskState, Action, initial_state, step}
use langgraph_agent.PlanPane.{
  PaneState, version_in, status_of, PaneCall, Save, pane_step, allowed, pane_call, reread, readable,
  initial_pane, start_load, render, effects, status_effect, version_effect, start_edit, start_save,
  save_blocked, finish_reread,
}
use langgraph_agent.PlanPane.Versions.{get-set_plan_version, newer_version_unread}
use langgraph_agent.PlanPane.Saved.{Writes, here, write_of, note_click, PaneRun, pane_step-Writes}
use langgraph_agent.Tests.Data.{two_steps}

abbrev stopped : Task
stopped = record two_steps { status = interrupted }

abbrev parked : TaskState
parked = record (initial_state none) { detail = put Dict.empty "t1" stopped }

abbrev pane : PaneState
pane = start_load (initial_pane "t1" parked)

-- An empty plan file.
abbrev plan_answer : StatusResult PlanData
plan_answer = record { status = 200; body = some (record { text = ""; version = 0 }); detail = "" }

abbrev written : Save
written = record { task_id = "t1"; text = "plan"; loaded = "" }

parked_task : get parked.detail "t1" ≡ some stopped
unfolding initial_state
parked_task = get-put Dict.empty "t1" "t1" stopped

-- The plan is edited, typed into and saved.
abbrev pane_with : Bool → String → ℕ → PaneState
pane_with busy text version = record {
  task_id = "t1";
  text = text;
  version = 0;
  loaded = "";
  editing = true;
  busy = busy;
  loading = true;
  load_error = "";
  note = none;
  conflict = none;
  latest_version = version;
  last_synced_version = 0;
  load_in_flight = false;
  reads = 2;
  store = parked;
}

may_edit : allowed PaneCall.edit_clicked pane ≡ true
unfolding allowed initial_pane start_load save_blocked is_parked
may_edit =
    ap (λ o. elim (status_of o) [ none ↦ false | some status ↦ is_parked status ] && true)
      parked_task

edit_step : (pane_step PaneCall.edit_clicked pane).1 ≡ pane_with false "" (version_in parked "t1")
unfolding pane_step pane_call start_load render effects status_effect version_effect start_edit
    save_blocked initial_pane is_parked start_save
edit_step = rw (may_edit, parked_task) refl

abbrev typing : PaneState
typing = pane_with false "plan" (version_in parked "t1")

abbrev saving : PaneState
saving = pane_with true "plan" (version_in parked "t1")

type_step :
    (pane_step (PaneCall.typed "plan") (pane_with false "" (version_in parked "t1"))).1 ≡ typing
unfolding pane_step allowed pane_call start_load render effects status_effect version_effect
    start_edit save_blocked initial_pane is_parked start_save
type_step = rw parked_task refl

save_step :
    pane_step PaneCall.save_clicked typing ≡ (reread written (get_plan_snapshot "t1"), saving)
unfolding pane_step allowed pane_call start_load render effects status_effect version_effect
    start_edit save_blocked initial_pane is_parked start_save
save_step = rw parked_task refl

run : PaneRun saving (typing ∷ [])
unfolding note_click
run =
    let edited = PaneRun.next PaneCall.edit_clicked tt (PaneRun.opened "t1" parked) in
    let typed =
      PaneRun.next (PaneCall.typed "plan") tt (subst (λ t. PaneRun t []) edit_step edited) in
    let saved = PaneRun.next PaneCall.save_clicked tt (subst (λ t. PaneRun t []) type_step typed) in
    subst (λ t. PaneRun t (typing ∷ [])) (ap (λ p. p.1) save_step) saved

writes :
    write_of (pane_step (PaneCall.reread_answered written plan_answer) saving).0
    ≡ some (put_plan "t1" "plan")
unfolding pane_step allowed pane_call finish_reread readable plan_load_state
writes = refl

pane_step-Writes_example :
    Writes saving
      (typing ∷ [])
      (PaneCall.reread_answered written plan_answer)
      (put_plan "t1" "plan")
pane_step-Writes_example =
    pane_step-Writes (PaneCall.reread_answered written plan_answer) (put_plan "t1" "plan") run
      (typing, here, ap (λ p. p.0) save_step) writes

-- A pane in step with its store, whose task gets a newer version of the plan.
abbrev synced : PaneState
synced = record (pane_with false "plan" 2) { editing = false; last_synced_version = 2 }

abbrev newer : PaneState
newer = (pane_step (PaneCall.acted (Action.set_plan_version "t1" 7)) synced).1

abbrev changed : Task
changed = record stopped { plan_version = 7 }

stored : get (step (Action.set_plan_version "t1" 7) parked).detail "t1" ≡ some changed
unfolding step
stored = get-set_plan_version "t1" 7 stopped parked parked_task

newer_version_unread_example :
    (version_in newer.store newer.task_id ≡ 7)
    × (newer.reads ≡ synced.reads)
    × (newer.text ≡ synced.text)
    × (newer.version ≡ synced.version)
newer_version_unread_example =
    newer_version_unread synced (Action.set_plan_version "t1" 7) stopped changed parked_task refl
      stored refl (omega arith)
