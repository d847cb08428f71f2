-- ===== src/Worker.antt =====
-- The worker (services/ingestion/bidpilot_ingestion/worker.py): one job is claimed, run and settled.
pub mod Defs
pub mod Settled
