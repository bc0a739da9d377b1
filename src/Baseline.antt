-- ===== src/Baseline.antt =====
-- scripts/setup/suricata_threshold_baseline.py: how often each disabled rule would have alerted, and
-- the threshold that this suggests. Times are in microseconds.
pub mod Window
pub mod Suggest
