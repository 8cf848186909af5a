-- ===== src/Tests.antt =====
-- Tests on concrete inputs, and each theorem at an input that meets its hypotheses.
mod Data
mod Pipes
mod Wire
mod Events
mod Records
mod Savers
mod Rounds
mod Snapshots
mod Collectors
