-- ===== src/PlanPane/Blocked.antt =====
-- While the last read of the plan of frontend/src/components/dash/PlanPane.tsx is told as failed, the plan
-- is not edited.
use langgraph_agent.Base.{String, false, not, ◌&&◌, truthy, ◌≡◌}
use langgraph_agent.TaskStore.{TaskState}
use langgraph_agent.PlanPane.{PaneState, PaneCall, pane_step, initial_pane, start_load}

pub data PaneReachable : PaneState → Type 0 where
  opened : (id : String) (store : TaskState) → PaneReachable (start_load (initial_pane id store))
  next : {s : PaneState} (call : PaneCall) → PaneReachable s → PaneReachable (pane_step call s).1

-- While the plan is edited, no load of it is under way and no failed read is told.
pub record Sound (s : PaneState) : Type 0 where
  pub quiet : (s.editing && s.load_in_flight) ≡ false
  pub known : (s.editing && truthy s.load_error) ≡ false
  pub waiting : (s.load_in_flight && not s.loading) ≡ false
