-- ===== src/Tests.antt =====
-- The theorems at concrete inputs, and runs of the operations.
mod Domain
mod Store
mod Epoch
mod Intake
mod Queries
mod Retry
mod Naming
mod Disk
mod Applier
