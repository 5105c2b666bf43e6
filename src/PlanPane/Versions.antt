-- ===== src/PlanPane/Versions.antt =====
-- A load of frontend/src/components/dash/PlanPane.tsx settles: what it gives is shown, mirrored in the
-- store of frontend/src/store/taskStore.ts, and no reload follows.
use langgraph_agent.Base.{
  ℕ, max, ◌≤◌, String, true, false, Option, none, some, eqb, eqb_refl, eqb_iff, eq_refl, ◌≡◌, inl,
  inr, refl, sym, ap, ◌∙◌, arith, Bool-cases,
}
use langgraph_agent.Types.{Task, TaskStatus, pending, running, failed, interrupted}
use langgraph_agent.Dict.{get, get-put}
use langgraph_agent.ApiClient.Answers.{StatusResult, PlanData}
use langgraph_agent.RequestPlan.{next_plan_version, should_reload_on_plan_version}
use langgraph_agent.TaskStore.{TaskState, Action, step, set_plan_version}
use langgraph_agent.PlanPane.{
  PaneState, PaneCall, allowed, pane_call, status_effect, effects, pane_step, version_in, status_in,
  version_of, status_of, render, settled, take_plan, apply_version, finish_load, version_effect,
  readable, same_status,
}

same_status_refl : (o : Option TaskStatus) → same_status o o ≡ true
same_status_refl none = refl
same_status_refl (some pending) = refl
same_status_refl (some running) = refl
same_status_refl (some failed) = refl
same_status_refl (some interrupted) = refl

-- The store's snapshot of a task whose plan has a version set.
pub get-set_plan_version :
    (id : String) (version : ℕ) (task : Task) (s : TaskState)
    → get s.detail id ≡ some task
    → get (set_plan_version id version s).detail id ≡ some (record task { plan_version = version })
unfolding set_plan_version
get-set_plan_version id version task s found = elim (Bool-cases (eqb task.plan_version version)) [
  | inl same ↦
      rw (found, set_plan_version)
        (rw same (
          found
          ∙ ap (λ v. some (record task { plan_version = v }))
              ((eqb_iff task.plan_version version).0 same)))
  | inr other ↦ rw (found, set_plan_version) (rw other (get-put s.detail id id _ ∙ rw eq_refl refl))
]

status_effect-same :
    (before after : PaneState)
    → before.task_id ≡ after.task_id
    → status_in before.store before.task_id ≡ status_in after.store after.task_id
    → status_effect before after ≡ after
unfolding status_effect
status_effect-same before after same status = ground (arith, e)
  where
    e :
        same_status (status_in before.store before.task_id) (status_in after.store after.task_id)
        ≡ true
    e = rw status (same_status_refl (status_in after.store after.task_id))

version_effect-synced :
    (s : PaneState) → s.last_synced_version ≤ version_in s.store s.task_id → version_effect s ≡ s
unfolding version_effect should_reload_on_plan_version
version_effect-synced s synced = ground (arith, synced)

-- Nothing follows a call that leaves the status, and no synced version ahead of the store's.
effects-synced :
    (before after : PaneState)
    → before.task_id ≡ after.task_id
    → status_in before.store before.task_id ≡ status_in after.store after.task_id
    → after.last_synced_version ≤ version_in after.store after.task_id
    → effects before after ≡ after
unfolding effects
effects-synced before after same status synced =
    rw (status_effect-same before after same status, version_effect-synced after synced)
      (ground arith)

stepped :
    (call : PaneCall) (s : PaneState)
    → allowed call s ≡ true
    → (pane_step call s).1 ≡ effects s (render (pane_call call s).1)
unfolding pane_step
stepped call s may = rw may refl

load-taken :
    (s : PaneState) (r : StatusResult PlanData) (plan : PlanData)
    → readable r ≡ some plan
    → (pane_call (PaneCall.load_answered s.reads r) s).1 ≡ settled (take_plan plan s)
unfolding pane_call
load-taken s r plan read = unfold finish_load in rw (eqb_refl s.reads, read) refl

module _ (s : PaneState) (task : Task) (found : get s.store.detail s.task_id ≡ some task) where
  -- The snapshot after a read of the plan was taken.
  taken_snapshot :
      (plan : PlanData)
      → get (take_plan plan s).store.detail s.task_id
        ≡ some (record task { plan_version = max s.latest_version plan.version })
  unfolding take_plan apply_version step next_plan_version
  taken_snapshot plan = get-set_plan_version s.task_id _ task _ found

  version-taken :
      (plan : PlanData)
      → version_in (take_plan plan s).store s.task_id ≡ max s.latest_version plan.version
  version-taken plan = ap version_of (taken_snapshot plan)

  status-taken :
      (plan : PlanData) → status_in s.store s.task_id ≡ status_in (take_plan plan s).store s.task_id
  status-taken plan = ap status_of found ∙ sym (ap status_of (taken_snapshot plan))

  synced-taken :
      (plan : PlanData)
      → ((take_plan plan s).last_synced_version ≡ max s.latest_version plan.version)
        × ((take_plan plan s).version ≡ max s.latest_version plan.version)
  unfolding take_plan apply_version next_plan_version
  synced-taken plan = (refl, refl)

  task_id-taken : (plan : PlanData) → (take_plan plan s).task_id ≡ s.task_id
  unfolding take_plan apply_version
  task_id-taken plan = refl

  -- The step in which a load is answered ends with the render of what it gave.
  step-taken :
      (r : StatusResult PlanData) (plan : PlanData)
      → s.load_in_flight ≡ true
      → readable r ≡ some plan
      → (pane_step (PaneCall.load_answered s.reads r) s).1 ≡ render (settled (take_plan plan s))
  step-taken r plan busy read =
      stepped (PaneCall.load_answered s.reads r) s (unfold allowed in ground (arith, busy))
      ∙ ap (λ t. effects s (render t)) (load-taken s r plan read)
      ∙ effects-synced s (render (settled (take_plan plan s)))
          (unfold render in sym (task_id-taken plan))
          (unfold render in rw (task_id-taken plan) (status-taken plan))
          (unfold render in
            rw (task_id-taken plan, version-taken plan, (synced-taken plan).0) (omega arith))

-- A pane after a load: the plan shown, its version shown and stored, and nothing under way.
pub record LoadSettled (s t : PaneState) (stored : ℕ) (plan : PlanData) : Type 0 where
  pub version : t.version ≡ max stored plan.version
  pub mirrored : version_in t.store t.task_id ≡ max stored plan.version
  pub shown : (t.text ≡ plan.text) × (t.loaded ≡ plan.text) × (t.load_error ≡ "")
  pub ended : (t.loading ≡ false) × (t.load_in_flight ≡ false)
  pub once : t.reads ≡ s.reads

-- The answer of a load that has not been cancelled, with a plan in it, ends the loading: the plan is
-- shown, its version is merged with the one of the task's snapshot, which the store then has too, and
-- no other load begins; the plan's version in the store never falls.
pub load_settles :
    (s : PaneState) (task : Task) (r : StatusResult PlanData) (plan : PlanData)
    → get s.store.detail s.task_id ≡ some task
    → s.latest_version ≡ task.plan_version
    → s.load_in_flight ≡ true
    → readable r ≡ some plan
    → LoadSettled s (pane_step (PaneCall.load_answered s.reads r) s).1 task.plan_version plan
load_settles s task r plan found latest busy read = rw (step-taken s task found r plan busy read) (
    unfold render in
    record {
      version = (synced-taken s task found plan).1 ∙ rw latest refl;
      mirrored =
          rw (task_id-taken s task found plan) (version-taken s task found plan ∙ rw latest refl);
      shown = unfold take_plan in unfold apply_version in (refl, refl, refl);
      ended = (refl, refl);
      once = unfold take_plan in unfold apply_version in refl;
    })

-- A newer version that an action on the store brings to a pane in step with it, for a task of the same
-- status, is not followed by a load: the pane keeps the text and the version that it shows.
pub newer_version_unread :
    (s : PaneState) (action : Action) (task after : Task)
    → get s.store.detail s.task_id ≡ some task
    → s.last_synced_version ≡ task.plan_version
    → get (step action s.store).detail s.task_id ≡ some after
    → after.status ≡ task.status
    → task.plan_version ≤ after.plan_version
    → let t = (pane_step (PaneCall.acted action) s).1 in
      (version_in t.store t.task_id ≡ after.plan_version)
      × (t.reads ≡ s.reads)
      × (t.text ≡ s.text)
      × (t.version ≡ s.version)
newer_version_unread s action task after found synced stored same newer =
    rw done (unfold render in (ap version_of stored, refl, refl, refl))
  where
    bumped : PaneState
    bumped = record s { store = step action s.store }

    called : (pane_call (PaneCall.acted action) s).1 ≡ bumped
    called = unfold pane_call in refl

    done : (pane_step (PaneCall.acted action) s).1 ≡ render bumped
    done =
        stepped (PaneCall.acted action) s (unfold allowed in refl)
        ∙ ap (λ t. effects s (render t)) called
        ∙ effects-synced s (render bumped) (unfold render in refl)
            (unfold render in ap status_of found ∙ ap some (sym same) ∙ sym (ap status_of stored))
            (unfold render in rw stored (omega (arith, synced, newer)))
