-- ===== src/ReduceTask/Merge.antt =====
-- `mergeStatusSnapshot`, `mergeSnapshotUnlessStale` and `needsStatusRefetch` of reduceTask.ts.
use langgraph_agent.Base.{max, Bool, true, false, length, ltb, if◌then◌else◌}
use langgraph_agent.Types.{Task, SseEvent, Payload, TaskStatus, pending}

unfoldable pub merge_status_snapshot : Task → Task → Task
merge_status_snapshot prev snapshot = record prev {
  status = snapshot.status;
  error = snapshot.error;
  updated_at = snapshot.updated_at;
}

unfoldable pub merge_snapshot_unless_stale : Task → Task → Task
merge_snapshot_unless_stale prev snapshot =
    let version = max prev.plan_version snapshot.plan_version in
    if ltb (length snapshot.steps) (length prev.steps)
    then record snapshot {
      steps = prev.steps;
      conversation = prev.conversation;
      subtasks = prev.subtasks;
      final_answer = prev.final_answer;
      plan_version = version;
      status = prev.status;
      error = prev.error;
    }
    else record snapshot { plan_version = version }

refetch_on : Payload → TaskStatus → Bool
refetch_on (Payload.step_start d) pending = true
refetch_on _ _ = false

unfoldable pub needs_status_refetch : Task → SseEvent → Bool
unfolding refetch_on
needs_status_refetch task ev = refetch_on ev.payload task.status
