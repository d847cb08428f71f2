-- ===== src/Health.antt =====
-- Source health monitoring (services/ingestion/bidpilot_ingestion/health.py).
pub mod Evaluate
pub mod Facts
pub mod Sweep
pub mod Swept
