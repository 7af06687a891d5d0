-- ===== src/Examples.antt =====
-- Theorems applied at concrete inputs.
mod Checks
mod Tables
mod Tools
mod Runs
mod Boards
mod Builds
mod Hosts
mod Harness
