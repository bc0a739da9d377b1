-- ===== src/Agent.antt =====
-- The agent of scripts/setup/ai_agent: its retries, its suppression window, its exclusion list, the
-- intake of alerts, the execution of an approved block, and the routes to the two.
pub mod Retry
pub mod Suppress
pub mod Isolation
pub mod Excluded
pub mod Execution
pub mod Intake
pub mod Routes
pub mod Routing
pub mod Secrets
pub mod Masking
pub mod Pending
pub mod Audit
