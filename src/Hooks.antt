-- ===== src/Hooks.antt =====
-- The scanners of hooks.py: the commands that it runs, and what it makes of how they end. The machine
-- that runs a command is a parameter; a report is the text that its file holds afterwards.
pub mod Commands
pub mod Excludes
pub mod Scans
pub mod Ended
