-- ===== src/Alerts.antt =====
-- Deadline and freshness alerts (services/ingestion/bidpilot_ingestion/alerts.py).
pub mod Days
pub mod Due
pub mod Run
pub mod Raised
pub mod Vault
pub mod Refreshed
pub mod Escalate
pub mod Escalated
