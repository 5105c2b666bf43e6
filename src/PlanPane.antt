-- ===== src/PlanPane.antt =====
-- frontend/src/components/dash/PlanPane.tsx: the plan of a task, read, edited and saved. The effects
-- that a call of React starts in the next render are part of the call.
mod State
mod Loading
mod Editing
mod Saving
mod Calls
pub mod Saved
pub mod Versions
pub mod Blocked
pub use State.{
  Conflict, PaneState, Save, PutData, PutReply, version_in, status_in, version_of, status_of,
}
unfoldable pub use State.{initial_pane, apply_version, render}
unfoldable pub use Loading.{
  start_load, take_plan, refuse_plan, finish_load, readable, reset_pane, version_effect,
  switch_pane,
}
pub use Loading.{settled}
unfoldable pub use Editing.{
  start_edit, cancel_edit, leave_edit, take_conflict, load_fresh, save_blocked,
}
unfoldable pub use Saving.{start_save, finish_reread, finish_put, saved, not_saved}
pub use Calls.{PaneCall, PaneRequest, no_request, reread, write, writing, same_status, same_bool}
unfoldable pub use Calls.{allowed, pane_call, status_effect, effects, pane_step}
