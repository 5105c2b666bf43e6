-- ===== src/TaskStore/Refinement.antt =====
-- taskStore.ts does what its specification says, whatever is called.
mod Parts
use langgraph_agent.Base.{
  ℕ, String, Bool, true, false, not, ◌&&◌, Option, none, some, List, [], ◌∷◌, ◌++◌, all, find?,
  last_n, eqb, eqb_iff, ◌==◌, eq_iff, eq_refl, truthy, ◌or◌, or_else, is_some, if◌then◌else◌, ◌≡◌,
  ◌≢◌, refl, sym, ap, ◌∙◌, fun_ext, arith, Bool-cases, Option-cases, inl, inr,
}
use mathlib.Core.Path.{subst}
use langgraph_agent.Types.{Task, SseEvent, Payload, type_of}
use langgraph_agent.Dict.{get, put, get-empty, get-put, get-remove, dict_laws}
use langgraph_agent.EventLedger.{is_ledger_type}
use langgraph_agent.TaskStore.{
  TaskState, row_of, upserted, apply_event, event_task_id, set_detail_error, set_plan_version,
  remove_task, Action, step, switched, upsert_task, keep_selection, drop_tasks, add_marker,
  event_limit,
}
use langgraph_agent.TaskStore.State.{initial_state}
use langgraph_agent.TaskStore.Detail.{status_merged, merge_task_status}
use langgraph_agent.TaskStore.Frames.{record_event, next_events, next_markers, next_rows, next_task}
use langgraph_agent.TaskStore.Invariant.{IsValid, initial_state-IsValid}
use langgraph_agent.TaskStore.Invariant.Preserved.{HasId-get, step-IsValid}
use langgraph_agent.TaskStore.Identity.{id-next_task}
use langgraph_agent.TaskStore.Isolation.{
  SameTask, apply_event-other, apply_event-files, apply_event-skips,
}
use langgraph_agent.TaskStore.Rows.{Filed, apply_event-Filed}
use langgraph_agent.TaskStore.Removal.{Gone, Kept, remove_task_lem}
use langgraph_agent.TaskStore.Snapshots.{
  Stored, upsert_task-Stored, merge_task_status-Stored, set_plan_version_lem,
  find?-replace_row-other,
}
use langgraph_agent.TaskStore.Spec.{
  View, Views, view_of, views_of, nothing, showing, planned_from, marked, received, planned, failed,
  at_task, unselected, owner, promised, one_task,
}
use langgraph_agent.TaskStore.Refinement.Parts.{
  view_eq, views_eq, view-SameTask, at_task-lem, view-Stored, at_task-same, row-next_rows-other,
  markers-next, events-next, record_event-rest, record_event-rows, unselected-keep,
  selected-remove_task,
}

module _ (s : TaskState) where
  upsert_refines :
      (task : Task)
      → views_of (upsert_task task s) ≡ promised (Action.upsert_task task) (views_of s)
  upsert_refines task =
      view-Stored s (upsert_task task s) task.id _ (λ v. showing (upserted v.snapshot task) v) refl
        (upsert_task-Stored task s)

  status_refines :
      (task : Task)
      → IsValid s
      → views_of (merge_task_status task s) ≡ promised (Action.merge_task_status task) (views_of s)
  status_refines task valid =
      view-Stored s (merge_task_status task s) task.id _
        (λ v. showing (status_merged v.snapshot task) v) refl
        (merge_task_status-Stored task s valid)

  plan_refines :
      (id : String) (version : ℕ)
      → IsValid s
      → views_of (set_plan_version id version s)
        ≡ promised (Action.set_plan_version id version) (views_of s)
  plan_refines id version valid = elim (Option-cases (get s.detail id)) [
    | inl absent ↦ rw ((set_plan_version_lem id version s valid).0 absent) (
        sym (
          at_task-same id (planned version) (views_of s)
            (ap (λ o. planned_from o version (view_of s id)) absent)))
    | inr (task, found) ↦ elim (Bool-cases (eqb task.plan_version version)) [
      | inl same ↦
          rw
            (((set_plan_version_lem id version s valid).1 task found).0
              ((eqb_iff task.plan_version version).0 same))
            (sym (
              at_task-same id (planned version) (views_of s)
                (ap (λ o. planned_from o version (view_of s id)) found ∙ rw same refl)))
      | inr other ↦
          view-Stored s (set_plan_version id version s) id _ (planned version)
            (ap (λ o. planned_from o version (view_of s id)) found ∙ rw other refl)
            (((set_plan_version_lem id version s valid).1 task found).1
              (λ e. cc (other, (eqb_iff task.plan_version version).1 e)))
    ]
  ]

  error_refines :
      (id message : String)
      → views_of (set_detail_error id message s)
        ≡ promised (Action.set_detail_error id message) (views_of s)
  unfolding set_detail_error
  error_refines id message = elim (Bool-cases (truthy message)) [
    | inl told ↦ rw told (
        views_eq _ _ refl (λ j. elim (Bool-cases (id == j)) [
          | inl same ↦
              rw same (
                view_eq _ _ refl refl refl refl
                  (get-put s.detail_error id j message ∙ rw same refl))
          | inr other ↦ rw other (
              view_eq _ _ refl refl refl refl (get-put s.detail_error id j message ∙ rw other refl))
        ]))
    | inr quiet ↦ rw quiet (
        views_eq _ _ refl (λ j. elim (Bool-cases (id == j)) [
          | inl same ↦
              rw same
                (view_eq _ _ refl refl refl refl (get-remove s.detail_error id j ∙ rw same refl))
          | inr other ↦
              rw other
                (view_eq _ _ refl refl refl refl (get-remove s.detail_error id j ∙ rw other refl))
        ]))
  ]

  remove_refines :
      (id : String) → views_of (remove_task id s) ≡ promised (Action.remove_task id) (views_of s)
  remove_refines id = views_eq (views_of (remove_task id s)) _ (selected-remove_task id s) (
      at_task-lem id (λ _. nothing) s (remove_task id s)
        (view_eq (view_of (remove_task id s) id) nothing gone.detail gone.row
          (ap (λ o. o or []) gone.events) (ap (λ o. o or []) gone.markers) gone.error)
        (λ j ne.
          view-SameTask _ s j ((remove_task_lem id s).1 j ne).same
            ((remove_task_lem id s).1 j ne).row))
    where
      gone : Gone (remove_task id s) id
      gone = (remove_task_lem id s).0

  frame_refines :
      (ev : SseEvent)
      → IsValid s
      → (is_ledger_type (type_of ev) && truthy (event_task_id s ev)) ≡ true
      → views_of (apply_event ev s)
        ≡ at_task (event_task_id s ev) (received (event_task_id s ev) ev) (views_of s)
  unfolding next_task
  frame_refines ev valid filed = views_eq (views_of (apply_event ev s)) _ done.selection (
      at_task-lem id (received id ev) s (apply_event ev s)
        (view_eq (view_of (apply_event ev s) id) (received id ev (view_of s id)) done.detail
          done.row (ap (λ t. get t.events_by_task id or []) files ∙ (record_event-rest id ev s).0)
          (ap (λ t. get t.markers id or []) files ∙ (record_event-rest id ev s).1)
          (ap (λ t. get t.detail_error id) files
            ∙ ap (λ d. get d id) (record_event-rest id ev s).2))
        (λ j ne. view-SameTask (apply_event ev s) s j (apply_event-other ev s j ne) (
          ap (λ t. row_of t j) files
          ∙ record_event-rows id j ev s (id-next_task s ev (HasId-get s id valid.keyed)) ne)))
    where
      id : String
      id = event_task_id s ev

      done : Filed s (apply_event ev s) (event_task_id s ev) ev
      done = apply_event-Filed ev s valid filed

      files : apply_event ev s ≡ record_event (event_task_id s ev) ev s
      files = apply_event-files ev s filed

  event_refines :
      (ev : SseEvent)
      → IsValid s
      → views_of (apply_event ev s) ≡ promised (Action.apply_event ev) (views_of s)
  unfolding event_task_id
  event_refines ev valid =
      elim (Bool-cases (is_ledger_type (type_of ev) && truthy (event_task_id s ev))) [
        | inr skipped ↦ rw (apply_event-skips ev s skipped) (rw skipped refl)
        | inl filed ↦ rw filed (frame_refines ev valid filed)
      ]

-- One operation.
step_refines :
    (a : Action) (s : TaskState)
    → IsValid s
    → one_task a ≡ true
    → views_of (step a s) ≡ promised a (views_of s)
unfolding step switched
step_refines (Action.set_tasks tasks) s v h = refl
step_refines (Action.set_history_filter filter) s v h = refl
step_refines (Action.set_settings_open open_now) s v h = refl
step_refines (Action.set_list_error message) s v h = refl
step_refines (Action.set_list_loading loading) s v h = refl
step_refines Action.retry_list s v h = refl
step_refines Action.retry_detail s v h = refl
step_refines (Action.set_detail_error id message) s v h = error_refines s id message
step_refines (Action.set_auth_expired source expired) s v h = refl
step_refines (Action.set_plan_version id version) s v h = plan_refines s id version v
step_refines (Action.set_current_task id) s v h = refl
step_refines (Action.remove_task id) s v h = remove_refines s id
step_refines (Action.remove_workspace_tasks workspace) s v h = cc h
step_refines (Action.switch_workspace dir) s v h = refl
step_refines (Action.upsert_task task) s v h = upsert_refines s task
step_refines (Action.merge_task_status task) s v h = status_refines s task v
step_refines (Action.apply_event ev) s v h = event_refines s ev v

unfoldable pub run_store : List Action → TaskState → TaskState
run_store [] s = s
run_store (a ∷ actions) s = run_store actions (step a s)

-- The same operations on views.
unfoldable pub replay : List Action → Views → Views
replay [] v = v
replay (a ∷ actions) v = replay actions (promised a v)

run_refines :
    (actions : List Action) (s : TaskState)
    → IsValid s
    → all one_task actions ≡ true
    → views_of (run_store actions s) ≡ replay actions (views_of s)
unfolding run_store replay
run_refines [] s v h = refl
run_refines (a ∷ actions) s v h =
    run_refines actions (step a s) (step-IsValid a s v) (ground arith)
    ∙ ap (replay actions) (step_refines a s v (ground arith))

abbrev pub no_views : Views
no_views = record { selected = none; view = λ j. nothing }

-- After any operations from the initial store, what it shows of every task, and which task is
-- selected, is what the same operations make of the empty views, where each of them changes the view
-- of its own task alone and reads no more than that view, the selection and its arguments; of the
-- operations, only the removal of a whole directory is left out.
pub run_store_refines :
    (dir : Option String) (actions : List Action)
    → all one_task actions ≡ true
    → views_of (run_store actions (initial_state dir)) ≡ replay actions no_views
run_store_refines dir actions h =
    run_refines actions (initial_state dir) (initial_state-IsValid dir) h
    ∙ ap (replay actions) initial_views
  where
    initial_views : views_of (initial_state dir) ≡ no_views
    initial_views =
        unfold initial_state in
        views_eq _ _ refl (λ j.
          view_eq _ _ (get-empty j) refl (ap (λ o. o or []) (get-empty j))
            (ap (λ o. o or []) (get-empty j)) (get-empty j))
