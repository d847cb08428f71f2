-- ===== src/Matching.antt =====
-- Matching of notices to organisations (services/ingestion/bidpilot_ingestion/matching.py).
pub mod Filters
pub mod Accepted
pub mod Funnel
pub mod Score
pub mod InUnit
