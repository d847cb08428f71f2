-- ===== src/Gateway.antt =====
-- The gateway to the language models (services/ingestion/bidpilot_ingestion/ai).
pub mod Cache
pub mod Call
pub mod Complete
