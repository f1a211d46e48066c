-- ===== src/Worker.antt =====
-- The execution worker: apps/api/app/services/worker.
pub mod Classifier
pub mod Job
