-- ===== src/TraceTab.antt =====
-- frontend/src/components/TraceTab.tsx: the replay of a task's trace.
pub mod Rows
pub mod State
pub mod Counted
pub mod Own
pub mod Exported
