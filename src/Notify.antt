-- ===== src/Notify.antt =====
-- Delivery of notifications (services/ingestion/bidpilot_ingestion/notify.py).
pub mod Render
pub mod Send
pub mod Marks
pub mod Headers
pub mod Delivered
pub mod Refused
pub mod Digest
pub mod Once
