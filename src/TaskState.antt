-- ===== src/TaskState.antt =====
-- frontend/src/lib/taskState.ts: which statuses are parked, stoppable, and polled.
use langgraph_agent.Base.{Bool, true, false, not, ◌&&◌, ◌≡◌, arith}
use langgraph_agent.Types.{TaskStatus, pending, running, failed, interrupted}

unfoldable pub is_parked : TaskStatus → Bool
is_parked interrupted = true
is_parked failed = true
is_parked _ = false

unfoldable pub is_stoppable : TaskStatus → Bool
is_stoppable running = true
is_stoppable pending = true
is_stoppable _ = false

unfoldable pub is_running : TaskStatus → Bool
is_running running = true
is_running _ = false

unfoldable pub should_poll_files : TaskStatus → Bool → Bool
unfolding is_running
should_poll_files status visible = visible && is_running status

-- Every status is either parked or stoppable, never both, and files are polled only for a status
-- that is stoppable, never for a parked one.
pub parked_or_stoppable :
    (status : TaskStatus) (visible : Bool)
    → (is_parked status ≡ not (is_stoppable status))
      × (should_poll_files status visible ≡ true → is_stoppable status ≡ true)
unfolding is_parked is_stoppable should_poll_files
parked_or_stoppable pending v = ground arith
parked_or_stoppable _ v = ground arith
