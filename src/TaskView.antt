-- ===== src/TaskView.antt =====
-- frontend/src/pages/TaskView.tsx: what the page asks the server for, and what it does with the answers.
pub mod History
pub mod Snapshot
pub mod Refetch
pub mod Dash
