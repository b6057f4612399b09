-- ===== src/Changed.antt =====
-- changed.py: which files a run has to scan.
pub mod Patterns
pub mod Lists
pub mod Sources
pub mod Event
