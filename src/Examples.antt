-- ===== src/Examples.antt =====
-- Small inputs: what the definitions compute on them, and the theorems applied to them.
pub mod Samples
pub mod Notices
mod QueueRuns
mod WorkerRuns
mod SchedulerRuns
mod HealthRuns
mod IntakeRuns
mod GatewayRuns
mod MatchingRuns
mod DedupeRuns
mod PipelineRuns
mod NotifyRuns
mod EvalRuns
mod AlertRuns
