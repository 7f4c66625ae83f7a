-- ===== src/Worker.antt =====
-- auth-provider/sync-worker: the worker that notifies the applications of revocation events.
pub mod Store
pub mod Delivery
pub mod Cycle
pub mod Consumer
mod Tests
