-- ===== src/Hydration.antt =====
-- Consistency after hydration (src/core/hydration-consistency): what a write to a hydrated store is
-- reconciled to, and the queue of the writes that wait for the end of the boot window.
pub mod State
pub mod Reconcile
pub mod Queue
mod Tests
