-- ===== src/PlanPane/Calls.antt =====
-- What may happen to the pane of frontend/src/components/dash/PlanPane.tsx: its controls, with the
-- conditions that enable them (lines 262 to 345), the answers, and the changes of its task.
use langgraph_agent.Base.{
  ℕ, String, Bool, true, false, not, eqb, ◌&&◌, ◌||◌, Option, none, some, is_some, truthy, ◌==◌,
  if◌then◌else◌,
}
use langgraph_agent.ApiClient.Answers.{StatusResult, PlanData}
use langgraph_agent.ApiClient.Requests.{ApiCall, put_plan, get_plan_snapshot}
use langgraph_agent.TaskState.{is_parked}
use langgraph_agent.Types.{TaskStatus, pending, running, failed, interrupted}
use langgraph_agent.TaskStore.{Action, step}
use langgraph_agent.PlanPane.State.{PaneState, Save, PutReply, render, status_in, version_in}
use langgraph_agent.PlanPane.Loading.{start_load, finish_load, switch_pane, version_effect}
use langgraph_agent.PlanPane.Editing.{start_edit, cancel_edit, load_fresh, save_blocked}
use langgraph_agent.PlanPane.Saving.{start_save, finish_reread, finish_put}

pub data PaneCall : Type 0 where
  edit_clicked cancel_clicked save_clicked overwrite_clicked fresh_clicked retry_clicked : PaneCall
  typed : String → PaneCall
  load_answered : ℕ → StatusResult PlanData → PaneCall
  reread_answered : Save → StatusResult PlanData → PaneCall
  put_answered : Save → PutReply → PaneCall
  task_changed : String → PaneCall
  acted : Action → PaneCall

-- What is asked of the server, with what the code that waits for the answer closes over.
pub data PaneRequest : Type 0 where
  no_request : PaneRequest
  reread : Save → ApiCall → PaneRequest
  write : Save → ApiCall → PaneRequest

-- `isParked(task.status)`
abbrev editable : PaneState → Bool
editable s = elim (status_in s.store s.task_id) [ none ↦ false | some status ↦ is_parked status ]

-- An answer comes to a load that has begun and, where it counts, has not been answered.
unfoldable pub allowed : PaneCall → PaneState → Bool
unfolding save_blocked
allowed edit_clicked s = not s.editing && editable s && not (save_blocked s)
allowed cancel_clicked s = s.editing && not s.busy
allowed save_clicked s = s.editing && not s.busy
allowed overwrite_clicked s = is_some s.conflict && not s.busy
allowed fresh_clicked s = is_some s.conflict
allowed retry_clicked s = truthy s.load_error && not s.store.auth_expired.plan && not s.loading
allowed (typed text) s = s.editing
allowed (load_answered read r) s = s.load_in_flight || not (eqb read s.reads)
allowed _ s = true

-- The request that a write begins with, if one is due.
abbrev pub writing : Save → Option ApiCall → PaneRequest
writing save none = no_request
writing save (some call) = write save call

unfoldable pub pane_call : PaneCall → PaneState → PaneRequest × PaneState
unfolding start_load finish_load switch_pane version_effect start_edit cancel_edit load_fresh
    start_save finish_reread finish_put step
pane_call edit_clicked s = (no_request, start_edit s)
pane_call cancel_clicked s = (no_request, cancel_edit s)
pane_call save_clicked s =
    let (save, t) = start_save s in (reread save (get_plan_snapshot s.task_id), t)
pane_call overwrite_clicked s =
    let (save, t) = start_save s in (write save (put_plan save.task_id save.text), t)
pane_call fresh_clicked s = (no_request, load_fresh s)
pane_call retry_clicked s = (no_request, start_load s)
pane_call (typed text) s = (no_request, record s { text = text })
pane_call (load_answered read r) s = (no_request, finish_load read r s)
pane_call (reread_answered save r) s =
    (writing save (finish_reread save r s).0, (finish_reread save r s).1)
pane_call (put_answered save reply) s = (no_request, finish_put save reply s)
pane_call (task_changed id) s = (no_request, switch_pane id s)
pane_call (acted action) s = (no_request, record s { store = step action s.store })

abbrev pub same_status : Option TaskStatus → Option TaskStatus → Bool
same_status none none = true
same_status (some pending) (some pending) = true
same_status (some running) (some running) = true
same_status (some failed) (some failed) = true
same_status (some interrupted) (some interrupted) = true
same_status _ _ = false

-- The load effect depends on the status, too; a change of the task has started it already.
unfoldable pub status_effect : PaneState → PaneState → PaneState
unfolding start_load
status_effect before after =
    if before.task_id == after.task_id
      && not (
          same_status (status_in before.store before.task_id) (status_in after.store after.task_id))
    then start_load after
    else after

abbrev pub same_bool : Bool → Bool → Bool
same_bool true b = b
same_bool false b = not b

-- The version effect runs when the task's version or the editing is another than in the render before.
unfoldable pub effects : PaneState → PaneState → PaneState
unfolding status_effect version_effect
effects before after =
    let loading = status_effect before after in
    if eqb (version_in before.store before.task_id) (version_in after.store after.task_id)
      && same_bool before.editing after.editing
    then loading
    else version_effect loading

-- A call that is allowed, and the render after it.
unfoldable pub pane_step : PaneCall → PaneState → PaneRequest × PaneState
unfolding allowed pane_call effects render
pane_step call s =
    if allowed call s
    then ((pane_call call s).0, effects s (render (pane_call call s).1))
    else (no_request, s)
