-- ===== src/ReduceTask/MergeLaws.antt =====
-- What the merges of a refetched snapshot keep.
use langgraph_agent.Base.{◌≤◌, ◌<◌, max, List, [], ◌∷◌, length, ◌≡◌, refl, arith}
use langgraph_agent.Types.{Task}
use langgraph_agent.ReduceTask.Merge.{merge_status_snapshot, merge_snapshot_unless_stale}

-- The live part of a snapshot: what frames of the stream write.
pub record SameLive (a b : Task) : Type 0 where
  pub steps : a.steps ≡ b.steps
  pub conversation : a.conversation ≡ b.conversation
  pub subtasks : a.subtasks ≡ b.subtasks
  pub final_answer : a.final_answer ≡ b.final_answer
  pub status : a.status ≡ b.status
  pub error : a.error ≡ b.error

-- A snapshot with fewer steps than the live detail leaves its steps, conversation, subtasks, final
-- answer, status and error alone; one with at least as many replaces them all.
pub SameLive-merge_snapshot :
    (prev snapshot : Task)
    → (length snapshot.steps < length prev.steps
        → SameLive (merge_snapshot_unless_stale prev snapshot) prev)
      × (length prev.steps ≤ length snapshot.steps
          → SameLive (merge_snapshot_unless_stale prev snapshot) snapshot)
unfolding merge_snapshot_unless_stale
SameLive-merge_snapshot prev snapshot = (λ h. ground arith, λ h. ground arith)

-- Whatever the snapshot, the merged detail has as many steps as the longer of the two and the
-- larger of the two plan versions, and the identity of the snapshot.
pub merge_snapshot_bounds :
    (prev snapshot : Task)
    → (length (merge_snapshot_unless_stale prev snapshot).steps
        ≡ max (length prev.steps) (length snapshot.steps))
      × ((merge_snapshot_unless_stale prev snapshot).plan_version
          ≡ max prev.plan_version snapshot.plan_version)
      × ((merge_snapshot_unless_stale prev snapshot).id ≡ snapshot.id)
unfolding merge_snapshot_unless_stale
merge_snapshot_bounds prev snapshot = ground arith

-- A sequence of refetches, in the order in which they arrive.
pub merge_all : Task → List Task → Task
merge_all prev [] = prev
merge_all prev (s ∷ rest) = merge_all (merge_snapshot_unless_stale prev s) rest

-- However many refetches arrive and in whatever order, neither the number of steps nor the plan
-- version of the detail ever falls.
pub merge_all_grows :
    (prev : Task) (snapshots : List Task)
    → (length prev.steps ≤ length (merge_all prev snapshots).steps)
      × (prev.plan_version ≤ (merge_all prev snapshots).plan_version)
unfolding merge_all
merge_all_grows prev [] = omega arith
merge_all_grows prev (s ∷ rest) =
    let ih = merge_all_grows (merge_snapshot_unless_stale prev s) rest in
    omega (arith, merge_snapshot_bounds prev s)

-- A second merge of the same snapshot changes nothing.
pub merge_snapshot_idem :
    (prev snapshot : Task)
    → merge_snapshot_unless_stale (merge_snapshot_unless_stale prev snapshot) snapshot
      ≡ merge_snapshot_unless_stale prev snapshot
unfolding merge_snapshot_unless_stale
merge_snapshot_idem prev snapshot = ground arith

-- A status refetch takes status, error and update time from the snapshot and keeps the rest of the
-- detail: the steps, conversation, subtasks, final answer and plan version that the stream and the
-- saves have made.
pub merge_status_lem :
    (prev snapshot : Task)
    → ((merge_status_snapshot prev snapshot).status ≡ snapshot.status)
      × ((merge_status_snapshot prev snapshot).error ≡ snapshot.error)
      × ((merge_status_snapshot prev snapshot).updated_at ≡ snapshot.updated_at)
      × (record (merge_status_snapshot prev snapshot) {
        status = prev.status;
        error = prev.error;
        updated_at = prev.updated_at;
      }
          ≡ prev)
unfolding merge_status_snapshot
merge_status_lem prev snapshot = (refl, refl, refl, refl)
