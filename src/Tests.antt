-- ===== src/Tests.antt =====
-- The theorems at concrete inputs.
mod Data
mod Reducer
mod Store
mod Ledgers
mod Views
mod Panes
mod Pages
mod Answers
mod Settings
mod Replay
mod Focused
mod Files
mod Plan
