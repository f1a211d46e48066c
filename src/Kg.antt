-- ===== src/Kg.antt =====
-- The knowledge graph's flows and their risk: apps/api/app/services/kg.
pub mod Writer
pub mod Risk
pub mod Flows
pub mod Coverage
mod Tests
