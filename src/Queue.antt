-- ===== src/Queue.antt =====
-- The job queue (services/ingestion/bidpilot_ingestion/queue.py). An operation is a transaction on
-- the database; the job identifiers are drawn from `Env.ulid` and are taken not to collide.
pub mod Defs
pub mod Keys
pub mod Enqueued
pub mod Claims
pub mod Order
pub mod Retry
pub mod Lifecycle
pub mod Preserved
pub mod Invariant
