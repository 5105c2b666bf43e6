-- ===== src/TaskView/Snapshot.antt =====
-- frontend/src/pages/TaskView.tsx, lines 181 to 230: the snapshot of the selected task, and the refetch
-- when a round parks.
pub mod Answered
use langgraph_agent.Base.{
  ℕ, ◌+◌, String, Bool, true, false, not, ◌&&◌, Option, none, some, is_some, List, eqb, ◌==◌,
  eqb_refl, truthy, ◌or◌, if◌then◌else◌, ◌≡◌, ◌≢◌, ◌⊎◌, refl, arith, Bool-cases, inl, inr,
}
use langgraph_agent.Types.{Task, TaskStatus}
use langgraph_agent.ApiClient.Answers.{StatusResult}
use langgraph_agent.Dict.{get}
use langgraph_agent.FailureStates.Details.{
  DetailLoadState, ready, auth, detail_load_state, detail_load_failure,
}
use langgraph_agent.FailureStates.Lists.{is_success}
use langgraph_agent.FailureStates.Entry.{is_ready}
use langgraph_agent.RequestPlan.{ParkedStatusMark, should_refetch_parked}
use langgraph_agent.TaskState.{is_parked}
use langgraph_agent.TaskStore.{TaskState, AuthSource, Action, step}

-- The store, what the parked effect saw last, and the number of the read that has not been cancelled.
pub record SnapshotState : Type 0 where
  pub store : TaskState
  pub prev_status : Option ParkedStatusMark
  pub current : ℕ

abbrev pub is_auth : DetailLoadState → Bool
is_auth auth = true
is_auth _ = false

-- A snapshot is in hand.
unfoldable pub take_snapshot : String → Task → SnapshotState → SnapshotState
unfolding step
take_snapshot id task s = record s {
  store = step (Action.upsert_task task) (
      step (Action.set_auth_expired AuthSource.detail false)
        (step (Action.set_detail_error id "") s.store));
  prev_status = some (record { id = id; status = task.status });
}

unfoldable pub take_failure : String → DetailLoadState → ℕ → SnapshotState → SnapshotState
unfolding step detail_load_failure
take_failure id state status s = record s {
  store =
      step (Action.set_auth_expired AuthSource.detail (is_auth state))
        (step (Action.set_detail_error id (detail_load_failure state status)) s.store);
}

-- The answer of the read of task `id`; of one that was cancelled, nothing is taken.
unfoldable pub finish_snapshot : String → ℕ → StatusResult Task → SnapshotState → SnapshotState
unfolding take_snapshot take_failure detail_load_state
finish_snapshot id read r s =
    let state = detail_load_state r.status (is_some r.body) in
    if eqb read s.current
    then elim r.body [
      | none ↦ take_failure id state r.status s
      | some task ↦
          if is_ready state then take_snapshot id task s else take_failure id state r.status s
    ]
    else s

-- The effect of a render that shows the selected task with a status: the id that is asked for, if it
-- is.
unfoldable pub parked_effect :
    String → Option TaskStatus → SnapshotState → Option String × SnapshotState
unfolding should_refetch_parked
parked_effect id none s = (none, s)
parked_effect id (some status) s =
    if truthy id
    then (
      if should_refetch_parked s.prev_status id status then some id else none,
      record s { prev_status = some (record { id = id; status = status }) },
    )
    else (none, s)

abbrev pub status_in : TaskState → String → Option TaskStatus
status_in s id = elim (get s.detail id) [ none ↦ none | some task ↦ some task.status ]
