-- ===== src/Evals.antt =====
-- The evaluation harness (services/ingestion/bidpilot_ingestion/evals.py).
pub mod Match
pub mod Picked
pub mod Found
pub mod Matched
