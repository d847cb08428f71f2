-- ===== src/Pipeline.antt =====
-- The later stages of the pipeline (services/ingestion/bidpilot_ingestion/pipeline.py): `run_normalize`,
-- `run_dedupe` and `run_match`.
pub mod Upsert
pub mod Load
pub mod Normalize
pub mod Cluster
pub mod Match
pub mod Amended
pub mod Again
pub mod Placed
pub mod Matched
