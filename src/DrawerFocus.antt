-- ===== src/DrawerFocus.antt =====
-- frontend/src/hooks/useDrawerFocus.ts: the focus and the inert marks of the drawers.
pub mod State
pub mod Returned
pub mod Closed
