-- ===== src/Storage.antt =====
-- The SQL storage, src/storage/storage.go, storage_block.go and storage_transaction.go. Database
-- has the tables, the driver and the queries; Setup opens the file; Transactions, Blocks, Chain
-- and Insert the methods of Storage, each with its proofs in its children.
pub mod Database
pub mod Setup
pub mod Transactions
pub mod Blocks
pub mod Chain
pub mod Insert
