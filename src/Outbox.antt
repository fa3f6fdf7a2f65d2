-- ===== src/Outbox.antt =====
-- The transactional outbox (src/outbox): durable jobs claimed and retried by worker processes.
pub mod Models
pub mod WellFormed
pub mod Store
pub mod Upkeep
pub mod Deferral
pub mod Scheduling
pub mod History
pub mod Worker
pub mod Fixtures
mod Tests
