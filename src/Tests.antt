-- ===== src/Tests.antt =====
-- The theorems of the library at concrete inputs.
mod Fixtures
mod Claims
mod Manual
mod Signing
mod Archive
mod Broker
mod Service
mod Agent
mod Intake
mod Prune
mod Slo
mod Baseline
mod Attack
mod Egress
mod Weekly
