-- ===== src/Retrieval.antt =====
-- shared/procuresignal/retrieval: the leases and circuits that retrieval workers share.
pub mod Circuit
pub mod RunLease
pub mod SourceLease
pub mod Dedup
pub mod Persistence
pub mod Orchestrator
pub mod Fetcher
