-- ===== src/Enrichment.antt =====
-- shared/procuresignal/enrichment: what an enrichment run may spend.
pub mod Budget
pub mod Policy
pub mod Router
pub mod Cache
pub mod Pipeline
