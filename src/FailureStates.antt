-- ===== src/FailureStates.antt =====
-- frontend/src/lib/failureStates.ts: which face a pane may show, and what it says.
pub mod Lists
pub mod Details
pub mod Faces
pub mod Entry
