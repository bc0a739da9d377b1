-- ===== src/Broker.antt =====
-- The Hive-Mind broker, scripts/hive-mind-broker.
pub mod Exclusion
pub mod Inventory
pub mod Router
pub mod Fleet
pub mod Gate
pub mod Queue
pub mod Service
pub mod Alert
pub mod Dispatch
pub mod Approve
pub mod Session
