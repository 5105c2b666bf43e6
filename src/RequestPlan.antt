-- ===== src/RequestPlan.antt =====
-- frontend/src/lib/requestPlan.ts and frontend/src/lib/planVersion.ts: which changes call for a
-- refetch.
use langgraph_agent.Base.{
  ℕ, ◌≤◌, ◌≡◌, refl, arith, eq_iff, ◌||◌, max, String, Bool, true, false, not, ◌&&◌, Option, none,
  some, List, includes, ltb, ◌==◌, truthy, ◌or◌, if◌then◌else◌,
}
use langgraph_agent.Types.{TaskStatus}
use langgraph_agent.TaskState.{is_parked, is_stoppable, parked_or_stoppable}

pub record ParkedStatusMark : Type 0 where
  pub id : String
  pub status : TaskStatus

unfoldable pub should_refetch_parked : Option ParkedStatusMark → String → TaskStatus → Bool
should_refetch_parked none task_id next = false
should_refetch_parked (some prev) task_id next =
    if prev.id == task_id then not (is_parked prev.status) && is_parked next else false

unfoldable pub should_bump_list_revision : List String → Option String → Bool
should_bump_list_revision known task_id =
    truthy (task_id or "") && not (includes known (task_id or ""))

unfoldable pub next_plan_version : ℕ → ℕ → ℕ
next_plan_version current incoming = max current incoming

unfoldable pub should_reload_on_plan_version : ℕ → ℕ → Bool
should_reload_on_plan_version synced current = ltb synced current

-- The parked refetch is asked for only when the same task was last seen live and is now parked.
pub should_refetch_parked_lem :
    (prev : Option ParkedStatusMark) (task_id : String) (next : TaskStatus)
    → should_refetch_parked prev task_id next ≡ true
    → (mark : ParkedStatusMark) × (prev ≡ some mark)
      × (mark.id ≡ task_id)
      × (is_stoppable mark.status ≡ true)
      × (is_parked next ≡ true)
unfolding should_refetch_parked
should_refetch_parked_lem none task_id next h = ground arith
should_refetch_parked_lem (some prev) task_id next h = (
  prev,
  refl,
  ground (arith, eq_iff prev.id task_id),
  ground (arith, (parked_or_stoppable prev.status true).0),
  ground arith,
)

-- Merging a read version into the stored one never lowers it, and the plan is reloaded after it
-- exactly when it would be for the stored or for the read version.
pub should_reload_on_plan_version-next_plan_version :
    (synced current incoming : ℕ)
    → (current ≤ next_plan_version current incoming)
      × (should_reload_on_plan_version synced (next_plan_version current incoming) ≡ (
          should_reload_on_plan_version synced current
          || should_reload_on_plan_version synced incoming))
unfolding should_reload_on_plan_version next_plan_version
should_reload_on_plan_version-next_plan_version synced current incoming =
    (omega arith, ground arith)
