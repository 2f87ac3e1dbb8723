-- ===== src/Tests.antt =====
-- Tests on the chain with a reorg of src/storage/storage_test.go, and the instances at which the
-- theorems of the other modules are applied.
mod Checks
mod Scenario
mod Chain
mod Insert
mod Mempool
mod Daemon
mod Types
mod Setup
mod Subscription
mod Client
mod Whole
mod Service
