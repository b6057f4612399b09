-- ===== src/Gate.antt =====
-- gate.py: findings, their gate against a baseline, and the reports that they are read from.
pub mod Whitespace
pub mod Finding
pub mod Evaluate
pub mod Baseline
pub mod Host
pub mod Fields
pub mod Reports
pub mod Annotate
pub mod Sarif
