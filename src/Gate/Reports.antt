-- ===== src/Gate/Reports.antt =====
-- The report readers of gate.py.
pub mod Shape
pub mod Opengrep
pub mod Trivy
pub mod Osv
pub mod Gitleaks
