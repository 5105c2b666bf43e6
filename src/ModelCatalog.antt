-- ===== src/ModelCatalog.antt =====
-- frontend/src/lib/modelCatalog.ts: the children follow its sections.
pub mod Entries
pub mod Form
pub mod Discovery
pub mod Failures
pub mod Grouped
pub mod Offered
pub mod Validated
