-- ===== src/Ci.antt =====
-- ci.py: the gate of one tool, and the authoritative run over all of them.
pub mod Gate
pub mod Run
pub mod Scans
