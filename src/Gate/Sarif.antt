-- ===== src/Gate/Sarif.antt =====
-- The two functions of gate.py that rewrite an Opengrep SARIF: `demote_low_confidence_levels` and
-- `drop_audit_results`, from the decoded report to the one that is written back. A function that changes
-- a part of the report in place returns that part, and the parts around it take it up.
pub mod Low
pub mod Drop
pub mod Demote
pub mod Settles
pub mod DropAgain
