-- ===== src/Tests.antt =====
-- Runs at concrete data, and the theorems applied to it.
mod Gate
mod Reports
mod Changed
mod Lock
mod Ci
mod Fetch
mod Verify
mod Annotate
mod Cli
mod Sarif
mod Hooks
mod Propagate
mod Rules
mod Patterns
