-- ===== src/Propagate.antt =====
-- scripts/propagate.py, which carries a release of the toolchain to the repositories of fleet.json.
pub mod Block
pub mod Marks
pub mod Replaced
pub mod Fresh
pub mod Workflow
pub mod Plan
pub mod Fleet
pub mod Trace
pub mod Select
