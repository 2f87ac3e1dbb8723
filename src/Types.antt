-- ===== src/Types.antt =====
-- The records that all parts share: src/types/block.go (Block, StoredBlock) and
-- src/types/transaction.go. Hash32 is in Types/Hash, the height in a coinbase script in Types/Height,
-- and the reading of a raw block in Wire.
mod Instant
pub mod Hash
pub mod Height
pub use Instant.{Time, at_second, after, before}
pub use Hash.{Hash32, zero_hash, hash_eq_iff}
unfoldable pub use Hash.{hash_eq}
use x_b10cslashbademeister.Common.{ℕ, Bool, Option, List}

-- A height is a uint32. `encoded_time` is none where the code leaves Go's zero time.
pub record Block : Type 0 where
  pub hash : Hash32
  pub parent : Hash32
  pub first_seen : Time
  pub height : ℕ
  pub is_best : Bool
  pub tx_ids : List Hash32
  pub encoded_time : Option Time

pub record StoredBlock : Type 0 where
  pub dbid : ℕ
  pub block : Block
  pub open block use *

-- The fields `BlockHeight` and `IndexInBlock`, which nothing writes or reads, are left out.
pub record Transaction : Type 0 where
  pub tx_id : Hash32
  pub first_seen : Time
  pub last_removed : Option Time
  pub fee : ℕ
  pub weight : ℕ

pub record StoredTransaction : Type 0 where
  pub dbid : ℕ
  pub transaction : Transaction
  pub open transaction use *
