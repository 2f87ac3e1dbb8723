-- ===== src/Mempool/Create.antt =====
-- The constructors of src/storage/mempool.go, and the methods that read a mempool off.
pub mod AtBlock
pub mod Copies
pub mod View
use x_b10cslashbademeister.Common.{ℕ, Option, none, some, List, [], ◌∷◌, ◌==◌, if◌then◌else◌}
use x_b10cslashbademeister.Types.{
  Time, at_second, after, Transaction, hash_eq, StoredBlock, StoredTransaction,
}
use x_b10cslashbademeister.Errors.{
  Result, ok, err, panic, out_of_fuel, not_on_consensus_chain, finding_best_block,
}
use x_b10cslashbademeister.Storage.Database.{Exec, pure, fail, ◌>>=◌, wrap_exec}
use x_b10cslashbademeister.Storage.Transactions.{query_transactions, query_by_time}
use x_b10cslashbademeister.Storage.Blocks.{best_block_at_time}
use x_b10cslashbademeister.Storage.Chain.{reorg_base}
use x_b10cslashbademeister.Mempool.{Mempool, Play, TransactionMap, empty_map}
use x_b10cslashbademeister.Mempool.Events.{apply_event, new_block_event, seek, add_all}

abbrev pub transaction_buffer_size : ℕ
transaction_buffer_size = 4096

abbrev pub block_buffer_size : ℕ
block_buffer_size = 4

unfoldable pub pair_with : {A : Type 0} → Mempool → Result A → Result (A × Mempool)
pair_with m (ok a) = ok (a, m)
pair_with m (err e) = err e
pair_with m panic = panic
pair_with m out_of_fuel = out_of_fuel

-- A method on a mempool that the caller holds.
unfoldable pub on_mempool : {A : Type 0} → Mempool → Play A → Exec (A × Mempool)
unfolding pair_with
on_mempool m play db =
    let (r, s) = play (record { mempool = m; db = db }) in (pair_with s.mempool r, s.db)

-- The first of the latest transactions.
unfoldable pub last_seen :
    Option StoredTransaction → List StoredTransaction → Option StoredTransaction
last_seen last [] = last
last_seen none (tx ∷ txs) = last_seen (some tx) txs
last_seen (some last) (tx ∷ txs) =
    last_seen (some (if after tx.first_seen last.first_seen then tx else last)) txs

-- `transactionsByDBID`
unfoldable pub transactions_by_dbid : List StoredTransaction → TransactionMap
transactions_by_dbid txs = add_all txs empty_map

unfoldable pub new_mempool_without_block : Time → Exec Mempool
unfolding last_seen transactions_by_dbid
new_mempool_without_block t = do
  txs ← query_transactions (query_by_time (some t) (some t))
  let last = last_seen none txs
  pure (record {
    time = elim last [ none ↦ at_second 0 | some tx ↦ tx.first_seen ];
    last_block = none;
    next_blocks = [];
    next_block_buffer_size = block_buffer_size;
    last_transaction = last;
    next_transactions = [];
    next_transactions_buffer_size = transaction_buffer_size;
    transactions = transactions_by_dbid txs;
  })

unfoldable pub new_mempool_at_block : StoredBlock → Exec Mempool
unfolding on_mempool
new_mempool_at_block block = do
  base ← reorg_base block.block
  (if hash_eq base.hash block.hash
      then (do
        m ← new_mempool_without_block block.first_seen
        (event, m') ← on_mempool m (new_block_event block)
        pure (apply_event event m'))
      else fail (not_on_consensus_chain block.hash base.hash))

unfoldable pub from_best : ℕ → Time → Option StoredBlock → Exec Mempool
unfolding on_mempool
from_best fuel t none = new_mempool_without_block t
from_best fuel t (some best) = do
  base ← reorg_base best.block
  m ← new_mempool_at_block base
  (_, m') ← on_mempool m (seek fuel t)
  pure m'

-- A mempool as the caller holds it: the fields of the object, and the place of its map in a store of
-- maps, which stands for the map among the fields.
pub record Held : Type 0 where
  pub object : Mempool
  pub map_at : ℕ

abbrev pub held : Held → (ℕ → TransactionMap) → Mempool
held m maps = record m.object { transactions = maps m.map_at }

-- `Clone`: a copy of the object whose map is a new one, filled entry by entry. `next_map` is a place
-- in the store that no object points to.
unfoldable pub clone : ℕ → Held → (ℕ → TransactionMap) → Held × (ℕ → TransactionMap)
clone next_map m maps = (
  record m { map_at = next_map },
  λ place. if place == next_map then maps m.map_at else maps place,
)

-- `TransactionMap`
unfoldable pub transaction_map : Mempool → TransactionMap
transaction_map m = m.transactions

-- `Transactions`, where Go visits the keys of the map in the order of the list.
unfoldable pub transactions_of : List ℕ → Mempool → List Transaction
transactions_of [] m = []
transactions_of (id ∷ ids) m =
    let rest = transactions_of ids m in
    elim (m.transactions id) [ none ↦ rest | some tx ↦ tx.transaction ∷ rest ]

-- `fuel` is that of the final `Seek`.
unfoldable pub new_mempool_at_time : ℕ → Time → Exec Mempool
unfolding from_best
new_mempool_at_time fuel t = do
  best ← wrap_exec finding_best_block (best_block_at_time t)
  from_best fuel t best
