-- ===== src/Examples.antt =====
-- The tests, and the theorems at concrete inputs.
mod Fixtures
mod Runs
mod Tally
mod Samples
mod Bundle
mod Analysis
mod Witnesses
