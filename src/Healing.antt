-- ===== src/Healing.antt =====
-- Self-healing: apps/api/app/services/healing.
pub mod Outcome
pub mod Journal
