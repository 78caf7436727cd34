-- ===== src/Agents.antt =====
-- shared/procuresignal/agents: the loop that drives a model with tools, and what is kept of it.
pub mod Loop
pub mod Evidence
