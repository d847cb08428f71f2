-- ===== src/Dedupe.antt =====
-- Deduplication and clustering (services/ingestion/bidpilot_ingestion/dedupe.py).
pub mod Names
pub mod Cuts
pub mod Core
pub mod Similar
pub mod Counted
pub mod Verdict
pub mod Merge
pub mod Clusters
pub mod Merged
pub mod Kept
pub mod Replay
pub mod Symmetric
