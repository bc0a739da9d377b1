-- ===== src/Claims.antt =====
-- Approval claims: `claim_approval`, `_transition_claim`, `get_claim` and their callers, of
-- scripts/setup/ai_agent/checkpoints.py.
pub mod Elastic
pub mod Client
pub mod System
pub mod Manual
