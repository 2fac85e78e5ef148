-- ===== src/Examples.antt =====
-- Concrete tables, and the theorems at work on them.
mod Rows
mod Derivations
mod Jobs
mod Builds
mod Shell
mod Evaluations
mod Pushes
mod Targets
mod Scans
mod Nix
mod Agents
mod Reports
mod Results
mod Runs
mod Fleet
