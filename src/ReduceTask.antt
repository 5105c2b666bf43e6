-- ===== src/ReduceTask.antt =====
-- frontend/src/store/reduceTask.ts: one frame of the event stream applied to a task snapshot.
mod Steps
mod Calls
mod Subtasks
mod Apply
mod Merge
pub mod Order
pub mod Replay
pub mod Attribution
pub mod Results
pub mod SubtaskLaws
pub mod MergeLaws
unfoldable pub use Steps.{
  make_step, insert_step, sort_steps, ensure_step, start_step, on_step_start,
}
unfoldable pub use Calls.{
  member_or, merge_call, refresh_call, put_call, record_call, update_last, on_tool_call,
  settle_call, settle_step, on_tool_result, holds_call,
}
pub use Subtasks.{SubtaskKind, started, returned, broken}
unfoldable pub use Subtasks.{new_subtask, next_subtask, put_subtask, on_subtask}
unfoldable pub use Apply.{
  empty_task, created_task, on_frame, apply_payload, apply_to_task, keeps_reference,
}
unfoldable pub use Merge.{merge_status_snapshot, merge_snapshot_unless_stale, needs_status_refetch}
