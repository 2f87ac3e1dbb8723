-- ===== src/Mempool/Buffers.antt =====
-- `NextTransaction` and `NextBlock` of src/storage/mempool.go. Each reads ahead into a buffer, and
-- returns the first entry after the current time, or at the time and after the last id.
pub mod Order
pub mod Transactions
pub mod Blocks
pub mod Window
use x_b10cslashbademeister.Common.{
  ℕ, zero, suc, ◌-◌, Bool, true, false, ◌&&◌, ◌||◌, Option, none, some, List, [], ◌∷◌, ◌++◌, map,
  ltb, ◌==◌, if◌then◌else◌, length, replicate,
}
use x_b10cslashbademeister.Types.{Time, after, StoredBlock, StoredTransaction}
use x_b10cslashbademeister.Errors.{panic, out_of_fuel}
use x_b10cslashbademeister.Storage.Transactions.{next_transactions}
use x_b10cslashbademeister.Storage.Blocks.{next_best_blocks}
use x_b10cslashbademeister.Mempool.{Mempool, Play, pure, stop, ◌>>=◌, ◌>>◌, storage, get, modify}

-- `==` on times. Go compares the locations too. Those of stored times are all UTC, and the one local
-- time is `time.Unix(0, 0)`, which newMempoolWithoutBlock gives a mempool without transactions: the
-- two differ on a row of the first second of 1970 alone, which is taken not to be there.
abbrev pub same_time : Time → Time → Bool
same_time t u = t.sec == u.sec && t.nsec == u.nsec

-- The test of both loops: the time of the entry and its id, against the cursor.
unfoldable pub is_next : Time → ℕ → Time → ℕ → Bool
is_next now dbid first_seen id = after first_seen now || (same_time first_seen now && ltb dbid id)

-- How the loop over a buffer ends: at an entry, at the sentinel, or behind the last entry.
pub data Found (A : Type 0) : Type 0 where
  entry : A → Found A
  sentinel : Found A
  exhausted : Found A

unfoldable pub scan_buffer : {A : Type 0} → (A → Bool) → List (Option A) → Found A
scan_buffer test [] = exhausted
scan_buffer test (none ∷ buffer) = sentinel
scan_buffer test (some a ∷ buffer) = if test a then entry a else scan_buffer test buffer

-- The rows copied into a slice of nils; none is an index out of range.
unfoldable pub fill_buffer : {A : Type 0} → ℕ → List A → Option (List (Option A))
fill_buffer size rows =
    if ltb size (length rows)
    then none
    else some (map some rows ++ replicate (size - length rows) none)

unfoldable pub last_transaction_dbid : Mempool → ℕ
last_transaction_dbid m = elim m.last_transaction [ none ↦ 0 | some tx ↦ tx.dbid ]

unfoldable pub last_block_dbid : Mempool → ℕ
last_block_dbid m = elim m.last_block [ none ↦ 0 | some b ↦ b.dbid ]

unfoldable pub set_transactions : List (Option StoredTransaction) → Mempool → Mempool
set_transactions buffer m = record m { next_transactions = buffer }

unfoldable pub set_blocks : List (Option StoredBlock) → Mempool → Mempool
set_blocks buffer m = record m { next_blocks = buffer }

unfoldable pub store_transactions : Option (List (Option StoredTransaction)) → Play (Unit {0})
unfolding set_transactions
store_transactions none = stop panic
store_transactions (some buffer) = modify (set_transactions buffer)

unfoldable pub store_blocks : Option (List (Option StoredBlock)) → Play (Unit {0})
unfolding set_blocks
store_blocks none = stop panic
store_blocks (some buffer) = modify (set_blocks buffer)

-- The buffer is a slice of nils while the query runs.
unfoldable pub reload_transactions : Mempool → Play (Unit {0})
unfolding store_transactions fill_buffer last_transaction_dbid
reload_transactions m = do
  modify (set_transactions (replicate m.next_transactions_buffer_size none))
  rows ←
      storage (next_transactions m.time (last_transaction_dbid m) m.next_transactions_buffer_size)
  store_transactions (fill_buffer m.next_transactions_buffer_size rows)

unfoldable pub reload_blocks : Mempool → Play (Unit {0})
unfolding store_blocks fill_buffer last_block_dbid
reload_blocks m = do
  modify (set_blocks (replicate m.next_block_buffer_size none))
  rows ← storage (next_best_blocks m.time (last_block_dbid m) m.next_block_buffer_size)
  store_blocks (fill_buffer m.next_block_buffer_size rows)

-- `len(buffer) == 0`
unfoldable pub is_empty : {A : Type 0} → List A → Bool
is_empty [] = true
is_empty (x ∷ xs) = false

unfoldable pub fill_transactions : Play (Unit {0})
unfolding reload_transactions is_empty
fill_transactions = do
  m ← get
  (if is_empty m.next_transactions then reload_transactions m else pure tt)

unfoldable pub fill_blocks : Play (Unit {0})
unfolding reload_blocks is_empty
fill_blocks = do m ← get; (if is_empty m.next_blocks then reload_blocks m else pure tt)

unfoldable pub pick_transaction : Mempool → Found StoredTransaction
unfolding is_next scan_buffer last_transaction_dbid
pick_transaction m =
    scan_buffer (λ tx. is_next m.time (last_transaction_dbid m) tx.first_seen tx.dbid)
      m.next_transactions

unfoldable pub pick_block : Mempool → Found StoredBlock
unfolding is_next scan_buffer last_block_dbid
pick_block m =
    scan_buffer (λ b. is_next m.time (last_block_dbid m) b.first_seen b.dbid) m.next_blocks

-- The recursion of `NextTransaction` on an exhausted buffer, with `fuel` calls left.
unfoldable pub next_transaction_from : ℕ → Play (Option StoredTransaction)
unfolding fill_transactions pick_transaction set_transactions
next_transaction_from zero = stop out_of_fuel
next_transaction_from (suc fuel) = do
  fill_transactions
  m ← get
  elim (pick_transaction m) [
    | entry tx ↦ pure (some tx)
    | sentinel ↦ pure none
    | exhausted ↦ do modify (set_transactions []); next_transaction_from fuel
  ]

unfoldable pub next_block_from : ℕ → Play (Option StoredBlock)
unfolding fill_blocks pick_block set_blocks
next_block_from zero = stop out_of_fuel
next_block_from (suc fuel) = do
  fill_blocks
  m ← get
  elim (pick_block m) [
    | entry b ↦ pure (some b)
    | sentinel ↦ pure none
    | exhausted ↦ do modify (set_blocks []); next_block_from fuel
  ]

-- A buffer that was just filled is not exhausted, so that two calls are enough.
unfoldable pub next_transaction : Play (Option StoredTransaction)
next_transaction = next_transaction_from 2

unfoldable pub next_block : Play (Option StoredBlock)
next_block = next_block_from 2
