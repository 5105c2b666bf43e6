-- ===== src/PlanPane/Loading.antt =====
-- The effects of frontend/src/components/dash/PlanPane.tsx, lines 97 to 161.
use langgraph_agent.Base.{
  ℕ, ◌+◌, String, Bool, true, false, ◌||◌, Option, none, some, eqb, if◌then◌else◌,
}
use langgraph_agent.ApiClient.Answers.{StatusResult, PlanData}
use langgraph_agent.FailureStates.Details.{
  PlanLoadState, plan_ready, plan_error, plan_load_state, plan_load_failure,
}
use langgraph_agent.RequestPlan.{should_reload_on_plan_version}
use langgraph_agent.TaskStore.{AuthSource, Action, step}
use langgraph_agent.PlanPane.State.{PaneState, render, apply_version, version_in}

-- The load effect runs again: the load before is cancelled, and a new one starts unless the plan is
-- being edited.
unfoldable pub start_load : PaneState → PaneState
start_load s =
    if s.editing
    then record s { reads = s.reads + 1; load_in_flight = false }
    else record s { reads = s.reads + 1; load_in_flight = true; loading = true }

abbrev pub settled : PaneState → PaneState
settled s = record s { load_in_flight = false; loading = false }

unfoldable pub refuse_plan : StatusResult PlanData → PaneState → PaneState
unfolding plan_load_failure step
refuse_plan r s = record s {
  load_error = plan_load_failure r.status (some r.detail);
  store = step (Action.set_auth_expired AuthSource.plan (eqb r.status 401)) s.store;
}

unfoldable pub take_plan : PlanData → PaneState → PaneState
unfolding apply_version step
take_plan plan s =
    record (apply_version s.task_id plan.version (record s {
      load_error = "";
      text = plan.text;
      store = step (Action.set_auth_expired AuthSource.plan false) s.store;
    })) { loaded = plan.text }

abbrev pub is_plan_ready : PlanLoadState → Bool
is_plan_ready plan_ready = true
is_plan_ready plan_error = false

-- What a read of the plan gives, if its status is one of success.
unfoldable pub readable : StatusResult PlanData → Option PlanData
unfolding plan_load_state
readable r = if is_plan_ready (plan_load_state r.status) then r.body else none

-- The answer of a load: of one that was cancelled, nothing is taken.
unfoldable pub finish_load : ℕ → StatusResult PlanData → PaneState → PaneState
unfolding take_plan refuse_plan readable
finish_load read r s =
    if eqb read s.reads
    then settled (elim (readable r) [ none ↦ refuse_plan r s | some plan ↦ take_plan plan s ])
    else s

-- Another task: everything but what a save is waiting for is reset.
unfoldable pub reset_pane : PaneState → PaneState
reset_pane s = record s {
  last_synced_version = 0;
  load_in_flight = false;
  editing = false;
  note = none;
  conflict = none;
  text = "";
  version = 0;
  loaded = "";
  load_error = "";
  loading = true;
}

unfoldable pub switch_pane : String → PaneState → PaneState
unfolding start_load reset_pane render
switch_pane id s = start_load (reset_pane (render (record s { task_id = id })))

-- The store's version changed, or the editing did. The call passes the stored version as `synced` and the
-- synced one as `current`, so that a reload needs a synced version ahead of the store's.
unfoldable pub version_effect : PaneState → PaneState
unfolding start_load should_reload_on_plan_version
version_effect s =
    if s.editing || s.load_in_flight
    then s
    else if should_reload_on_plan_version (version_in s.store s.task_id) s.last_synced_version
    then start_load s
    else s
