-- ===== src/Weekly.antt =====
-- The weekly report, scripts/setup/ai_agent/weekly_ciso_report.py: its figures, the reports that
-- stay on disk, and what is sent where.
pub mod Metrics
pub mod Reports
pub mod Deliver
