-- ===== src/TaskView/Snapshot/Answered.antt =====
-- What the answer of a snapshot leaves on the page of frontend/src/pages/TaskView.tsx.
use langgraph_agent.Base.{
  ℕ, String, Bool, true, false, ◌&&◌, Option, none, some, is_some, eqb, eqb_refl, eq_refl, truthy,
  ◌≡◌, refl, arith, inl, inr, ◌∙◌, ap, Option-cases,
}
use langgraph_agent.Types.{Task, TaskStatus}
use langgraph_agent.ApiClient.Answers.{StatusResult}
use langgraph_agent.Dict.{get, get-remove}
use langgraph_agent.FailureStates.Details.{detail_load_state, detail_load_failure}
use langgraph_agent.FailureStates.Lists.{is_success}
use langgraph_agent.FailureStates.Entry.{
  is_ready-detail_load_state, detail_load_failure-truthy, set_detail_error-detail_load_state,
}
use langgraph_agent.RequestPlan.{should_refetch_parked}
use langgraph_agent.TaskState.{is_parked}
use langgraph_agent.TaskStore.{TaskState, step, mark_auth, set_detail_error, upserted, upsert_task}
use langgraph_agent.TaskStore.Snapshots.{upsert_task_lem, upsert_task-Stored}
use langgraph_agent.TaskView.Snapshot.{
  SnapshotState, take_snapshot, take_failure, is_auth, finish_snapshot, parked_effect,
}

-- The page after a snapshot was taken: no error entry, no expired login, the snapshot stored, and no
-- second read of a task that is parked already.
pub record Taken (id : String) (task : Task) (s t : SnapshotState) : Type 0 where
  pub entry : get t.store.detail_error id ≡ none
  pub login : t.store.auth_expired.detail ≡ false
  pub stored : get t.store.detail task.id ≡ some (upserted (get s.store.detail task.id) task)
  pub parked :
      (shown : Option TaskStatus)
      → is_parked task.status ≡ true
      → (parked_effect id shown t).0 ≡ none

-- The page after a failure: an error entry, the login asked for exactly on a 401, and the tasks kept.
pub record Failed (id : String) (status : ℕ) (s t : SnapshotState) : Type 0 where
  pub message : String
  pub entry : get t.store.detail_error id ≡ some message
  pub told : truthy message ≡ true
  pub login : t.store.auth_expired.detail ≡ eqb status 401
  pub kept : (t.store.detail ≡ s.store.detail) × (t.store.tasks ≡ s.store.tasks)

is_auth-state :
    (status : ℕ) (has_data : Bool)
    → (is_success status && has_data) ≡ false
    → is_auth (detail_load_state status has_data) ≡ eqb status 401
unfolding detail_load_state
is_auth-state status has_data h = ground arith

no_entry : (id : String) (s : TaskState) → get (set_detail_error id "" s).detail_error id ≡ none
unfolding set_detail_error
no_entry id s = get-remove s.detail_error id id ∙ rw eq_refl refl

-- Storing a snapshot leaves the errors and the logins.
same-upsert_task :
    (task : Task) (s : TaskState)
    → ((upsert_task task s).detail_error ≡ s.detail_error)
      × ((upsert_task task s).auth_expired ≡ s.auth_expired)
same-upsert_task task s = rw (upsert_task_lem task s) (refl, refl)

parked_effect-known :
    (id : String) (status : TaskStatus) (shown : Option TaskStatus) (s : SnapshotState)
    → s.prev_status ≡ some (record { id = id; status = status })
    → is_parked status ≡ true
    → (parked_effect id shown s).0 ≡ none
unfolding parked_effect
parked_effect-known id status none s e h = refl
parked_effect-known id status (some now) s e h = rw (e, should_refetch_parked, h) (ground arith)

taken : (id : String) (task : Task) (s : SnapshotState) → Taken id task s (take_snapshot id task s)
unfolding take_snapshot step mark_auth
taken id task s = record {
  entry = ap (λ d. get d id) (same-upsert_task task _).0 ∙ no_entry id s.store;
  login = ap (λ a. a.detail) (same-upsert_task task _).1;
  stored = (upsert_task-Stored task _).detail ∙ unfold set_detail_error in refl;
  parked = λ shown parked. parked_effect-known id task.status shown _ refl parked;
}

failed :
    (id : String) (status : ℕ) (has_data : Bool) (s : SnapshotState)
    → (is_success status && has_data) ≡ false
    → Failed id status s (take_failure id (detail_load_state status has_data) status s)
unfolding take_failure step mark_auth
failed id status has_data s h = record {
  message = detail_load_failure (detail_load_state status has_data) status;
  entry = set_detail_error-detail_load_state id id status has_data s.store ∙ rw (eq_refl, h) refl;
  told =
      detail_load_failure-truthy (detail_load_state status has_data) status
      ∙ rw (is_ready-detail_load_state status has_data, h) refl;
  login = is_auth-state status has_data h;
  kept = unfold set_detail_error in (refl, refl);
}

-- The answer of the snapshot's read that has not been cancelled: with a status of success and a task in it,
-- the error entry is gone, the task is stored, and no render asks for it a second time if it is
-- parked already; otherwise a message is stored as the error entry, the login is asked for exactly
-- on a 401, and no task changes.
pub finish_snapshot_lem :
    (id : String) (r : StatusResult Task) (s : SnapshotState)
    → ((task : Task)
        → r.body ≡ some task
        → is_success r.status ≡ true
        → Taken id task s (finish_snapshot id s.current r s))
      × ((is_success r.status && is_some r.body) ≡ false
          → Failed id r.status s (finish_snapshot id s.current r s))
finish_snapshot_lem id r s = (
  λ task e ok.
      unfold finish_snapshot in
      rw (eqb_refl s.current, e, is_ready-detail_load_state r.status (is_some r.body), ok, e)
        (taken id task s),
  λ bad. elim (Option-cases r.body) [
    | inl e ↦
        unfold finish_snapshot in
        rw (eqb_refl s.current, e) (failed id r.status (is_some r.body) s bad)
    | inr (task, e) ↦
        unfold finish_snapshot in
        rw (eqb_refl s.current, e, is_ready-detail_load_state r.status (is_some r.body), bad)
          (failed id r.status (is_some r.body) s bad)
  ],
)
