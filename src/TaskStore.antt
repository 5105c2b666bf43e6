-- ===== src/TaskStore.antt =====
-- frontend/src/store/taskStore.ts: the client's store of tasks, its methods as functions of the state.
mod State
mod Drop
mod Detail
mod Frames
mod Actions
pub mod Identity
pub mod Invariant
pub mod Isolation
pub mod References
pub mod Removal
pub mod Rows
pub mod Snapshots
pub mod Spec
pub mod Refinement
pub use State.{RailFilter, AuthSource, AuthExpired, TaskState}
unfoldable pub use State.{initial_state}
unfoldable pub use Drop.{
  keep_selection, drop_tasks, workspace_ids, remove_task, remove_workspace_tasks,
}
unfoldable pub use Detail.{set_detail_error, set_plan_version, upserted, upsert_task}
unfoldable pub use Frames.{event_task_id, next_task, add_marker, apply_event}
pub use Frames.{row_of, event_limit, marker_limit, marker_data}
pub use Actions.{Action, Reachable}
unfoldable pub use Actions.{mark_auth, switched, step}
