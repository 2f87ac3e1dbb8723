-- ===== src/Mempool/Events.antt =====
-- Events and `Seek` of src/storage/mempool.go.
pub mod Branches
pub mod Sought
pub mod Turn
pub mod Next
pub mod Cursor
pub mod Total
pub mod Reorg
pub mod Links
use x_b10cslashbademeister.Common.{
  ℕ, zero, suc, true, false, Option, none, some, List, [], ◌∷◌, ◌++◌, if◌then◌else◌,
}
use x_b10cslashbademeister.Types.{Time, before, after, hash_eq, StoredBlock, StoredTransaction}
use x_b10cslashbademeister.Errors.{ok, out_of_fuel, cannot_seek_backwards}
use x_b10cslashbademeister.Storage.Database.{Exec}
use x_b10cslashbademeister.Storage.Transactions.{transactions_in_block, transaction_dbids_in_block}
use x_b10cslashbademeister.Storage.Chain.{common_ancestor, walk_blocks}
use x_b10cslashbademeister.Mempool.{
  TransactionMap, put, delete, Mempool, Play, pure, fail, stop, ◌>>=◌, ◌>>◌, storage, get, modify,
}
use x_b10cslashbademeister.Mempool.Buffers.{next_transaction, next_block}

pub data EventType : Type 0 where
  enter_mempool block_confirmation block_reorg : EventType

pub record Event : Type 0 where
  pub time : Time
  pub type : EventType
  pub new_block : Option StoredBlock
  pub new_transaction : Option StoredTransaction
  pub add_transactions : List StoredTransaction
  pub remove_transactions : List ℕ

-- The closures that `newBlockEvent` walks with.
unfoldable pub collect_transactions :
    StoredBlock → List StoredTransaction → Exec (List StoredTransaction)
collect_transactions b collected db =
    let (r, db') = transactions_in_block b.dbid db in
    (elim r [ ok txs ↦ ok (collected ++ txs) | other ↦ other ], db')

unfoldable pub collect_dbids : StoredBlock → List ℕ → Exec (List ℕ)
collect_dbids b collected db =
    let (r, db') = transaction_dbids_in_block b.dbid db in
    (elim r [ ok ids ↦ ok (collected ++ ids) | other ↦ other ], db')

-- The part under `if m.lastBlock != nil`: the type of the event, the common ancestor, and the
-- transactions of the blocks that are given up.
unfoldable pub reorged :
    Option StoredBlock
    → StoredBlock
    → Play (EventType × Option StoredBlock × List StoredTransaction)
unfolding collect_transactions
reorged none new_best = pure (block_confirmation, none, [])
reorged (some last_block) new_best = do
  ancestor ← storage (common_ancestor last_block new_best)
  added ← storage (walk_blocks last_block (some ancestor) collect_transactions [])
  pure (
    if hash_eq ancestor.hash last_block.hash then block_confirmation else block_reorg,
    some ancestor,
    added,
  )

unfoldable pub new_block_event : StoredBlock → Play Event
unfolding reorged collect_dbids
new_block_event new_best = do
  m ← get
  (kind, ancestor, added) ← reorged m.last_block new_best
  removed ← storage (walk_blocks new_best ancestor collect_dbids [])
  pure (record {
    time = new_best.first_seen;
    type = kind;
    new_block = some new_best;
    new_transaction = none;
    add_transactions = added;
    remove_transactions = removed;
  })

unfoldable pub new_transaction_event : StoredTransaction → Event
new_transaction_event tx = record {
  time = tx.first_seen;
  type = enter_mempool;
  new_block = none;
  new_transaction = some tx;
  add_transactions = tx ∷ [];
  remove_transactions = [];
}

unfoldable pub event_of : Option StoredTransaction → Option StoredBlock → Play (Option Event)
unfolding new_block_event new_transaction_event
event_of none none = pure none
event_of (some tx) none = pure (some (new_transaction_event tx))
event_of none (some b) = do e ← new_block_event b; pure (some e)
event_of (some tx) (some b) =
    if before b.first_seen tx.first_seen
    then (do e ← new_block_event b; pure (some e))
    else pure (some (new_transaction_event tx))

unfoldable pub next_event : Play (Option Event)
unfolding event_of
next_event = do tx ← next_transaction; b ← next_block; event_of tx b

unfoldable pub add_all : List StoredTransaction → TransactionMap → TransactionMap
add_all [] m = m
add_all (tx ∷ txs) m = add_all txs (put tx.dbid tx m)

unfoldable pub remove_all : List ℕ → TransactionMap → TransactionMap
remove_all [] m = m
remove_all (id ∷ ids) m = remove_all ids (delete id m)

unfoldable pub or_else : {A : Type 0} → Option A → Option A → Option A
or_else none old = old
or_else (some new) old = some new

unfoldable pub apply_event : Event → Mempool → Mempool
unfolding add_all remove_all or_else
apply_event e m = record m {
  time = e.time;
  last_block = or_else e.new_block m.last_block;
  last_transaction = or_else e.new_transaction m.last_transaction;
  transactions = remove_all e.remove_transactions (add_all e.add_transactions m.transactions);
}

-- The loop of `Seek`, with `fuel` rounds left: one for every event and one to stop.
unfoldable pub seek_from : ℕ → Time → Play (Unit {0})
seek_from zero t = stop out_of_fuel
seek_from (suc fuel) t = do
  found ← next_event
  elim found [
    | none ↦ pure tt
    | some e ↦ elim (after e.time t) [
      | true ↦ pure tt
      | false ↦ do modify (apply_event e); seek_from fuel t
    ]
  ]

unfoldable pub seek : ℕ → Time → Play (Unit {0})
seek fuel t = do m ← get; (if before t m.time then fail cannot_seek_backwards else seek_from fuel t)
