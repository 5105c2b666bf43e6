-- ===== src/FailureStates/Entry.antt =====
-- frontend/src/lib/failureStates.ts with `setDetailError` of frontend/src/store/taskStore.ts: a failed
-- snapshot leaves an error entry.
use langgraph_agent.Base.{
  ℕ, String, Bool, true, false, not, ◌==◌, ◌&&◌, none, some, truthy, truthy-cons, ◌<>◌,
  if◌then◌else◌, ◌≡◌, refl, arith,
}
use langgraph_agent.FailureStates.Lists.{is_success}
use langgraph_agent.FailureStates.Details.{
  DetailLoadState, ready, server, detail_load_state, detail_load_failure,
}
use langgraph_agent.Dict.{get, get-put, get-remove}
use langgraph_agent.TaskStore.{TaskState, set_detail_error}

abbrev pub is_ready : DetailLoadState → Bool
is_ready ready = true
is_ready _ = false

pub detail_load_failure-truthy :
    (state : DetailLoadState) (status : ℕ)
    → truthy (detail_load_failure state status) ≡ not (is_ready state)
unfolding detail_load_failure ◌<>◌
detail_load_failure-truthy server status = truthy-cons _ _
detail_load_failure-truthy _ status = refl

pub is_ready-detail_load_state :
    (status : ℕ) (has_data : Bool)
    → is_ready (detail_load_state status has_data) ≡ (is_success status && has_data)
unfolding detail_load_state
is_ready-detail_load_state status has_data = ground arith

-- Storing the text of a snapshot's answer removes the task's error entry exactly when the answer is a
-- 2xx with data, and otherwise puts an entry there; no other task's entry changes.
pub set_detail_error-detail_load_state :
    (id other : String) (status : ℕ) (has_data : Bool) (s : TaskState)
    → let text = detail_load_failure (detail_load_state status has_data) status in
      get (set_detail_error id text s).detail_error other ≡ (
        if id == other
        then if is_success status && has_data then none else some text
        else get s.detail_error other)
unfolding set_detail_error
set_detail_error-detail_load_state id other status has_data s = ground (
  arith,
  detail_load_failure-truthy (detail_load_state status has_data) status,
  is_ready-detail_load_state status has_data,
  get-put s.detail_error id other (detail_load_failure (detail_load_state status has_data) status),
  get-remove s.detail_error id other,
)
