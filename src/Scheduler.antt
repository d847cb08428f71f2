-- ===== src/Scheduler.antt =====
-- The scheduler (services/ingestion/bidpilot_ingestion/scheduler.py).
pub mod Text
pub mod Cron
pub mod Tick
pub mod Idempotent
