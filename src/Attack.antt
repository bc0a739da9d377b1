-- ===== src/Attack.antt =====
-- scripts/setup/build_attack_coverage.py: which ATT&CK techniques the detections cover, by tactic. The
-- rule files and logstash.conf are read by regular expressions before; a rule is what they find.
pub mod Tables
pub mod Pairs
pub mod Harvest
pub mod Layer
