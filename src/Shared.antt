-- ===== src/Shared.antt =====
-- packages/shared/src/index.ts: the revocation event that the provider, its worker and the
-- applications exchange.
pub mod Json
pub mod Pattern
pub mod Canonical
pub mod Event
