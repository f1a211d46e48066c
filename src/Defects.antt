-- ===== src/Defects.antt =====
-- The classification and the filing of defects: apps/api/app/services/defects.
pub mod Classify
pub mod Pipeline
mod Tests
