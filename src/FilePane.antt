-- ===== src/FilePane.antt =====
-- frontend/src/components/dash/FilePane.tsx: the files of a task's workspace.
pub mod State
pub mod Reachable
pub mod Own
