-- ===== src/Tests.antt =====
-- Runs of the modelled code at fixed inputs, and the theorems at inputs that meet their hypotheses.
mod Batches
mod Desync
mod Ids
mod Index
mod Lock
mod Meta
mod Progress
mod Registry
mod Race
mod Run
mod Search
mod Staging
mod Windows
