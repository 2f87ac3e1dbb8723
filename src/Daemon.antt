-- ===== src/Daemon.antt =====
-- src/daemon/daemon.go: the backfill from the node at the start, and the loop that writes what the
-- subscriber receives. What only logs is left out; stacks on errors change no error. Quit has the
-- channel by which Stop ends the loop, and Service the construction, Run as a whole and Close.
pub mod Backfill
pub mod Loop
pub mod Preserved
pub mod Fetched
pub mod Started
pub mod Chains
pub mod Quit
pub mod Service
use x_b10cslashbademeister.Common.{
  ℕ, ◌≡◌, zero, suc, ◌+◌, Bool, true, false, Option, none, some, List, [], ◌∷◌, length, ltb,
  if◌then◌else◌,
}
use x_b10cslashbademeister.Types.{Time, Hash32, Block, StoredBlock, Transaction}
use x_b10cslashbademeister.Errors.{
  Result, ok, err, panic, out_of_fuel, Error, no_rpc_client, rpc_failure, max_backfill,
  getting_raw_mempool, wrap,
}
use x_b10cslashbademeister.Wire.{Btcd, MsgBlock, new_block_from_wire_block}
use x_b10cslashbademeister.Rpc.{
  BitcoinRpcClient, GetRawMempoolVerboseResult, raw_mempool_to_transactions,
}
use x_b10cslashbademeister.Zmq.{ZmqSubscriber, Topic, process_message}
use x_b10cslashbademeister.Storage.Database.{Database, Exec, pure, fail, lift, ◌>>=◌, ◌>>◌}
use x_b10cslashbademeister.Storage.Transactions.{insert_transactions, tx_count}
use x_b10cslashbademeister.Storage.Blocks.{block_by_hash, best_block_now, has_blocks}
use x_b10cslashbademeister.Storage.Insert.{insert_block}

unfoldable pub process_transactions : List Transaction → Exec (Unit {0})
process_transactions txs = do insert_transactions txs; pure tt

unfoldable pub process_transaction : Transaction → Exec (Unit {0})
unfolding process_transactions
process_transaction tx = process_transactions (tx ∷ [])

unfoldable pub process_block : Block → Exec (Unit {0})
process_block block = do insert_block block; pure tt

unfoldable pub process_blocks : List Block → Exec (Unit {0})
unfolding process_block
process_blocks [] = pure tt
process_blocks (block ∷ blocks) = do process_block block; process_blocks blocks

-- The loop of `findMissingBlocks`, with `fuel` rounds left.
unfoldable pub missing_blocks_from :
    Btcd → BitcoinRpcClient → ℕ → ℕ → Hash32 → List Block → Exec (List Block)
missing_blocks_from b rpc zero max current res = lift out_of_fuel
missing_blocks_from b rpc (suc fuel) max current res = elim (ltb max (length res)) [
  | true ↦ fail max_backfill
  | false ↦ do
    db_block ← block_by_hash current
    elim db_block [
      | some found ↦ pure res
      | none ↦ elim (rpc.get_block current) [
        | none ↦ fail rpc_failure
        | some wire_block ↦ do
          block ← lift (new_block_from_wire_block b wire_block.header.timestamp wire_block)
          missing_blocks_from b rpc fuel max wire_block.header.prev_block (block ∷ res)
      ]
    ]
]

-- Every round but the last adds a block, and the limit ends the loop above `max_backfill` blocks.
unfoldable pub find_missing_blocks : Btcd → Option BitcoinRpcClient → ℕ → Exec (List Block)
unfolding missing_blocks_from
find_missing_blocks b none max = fail no_rpc_client
find_missing_blocks b (some rpc) max = elim rpc.get_best_block_hash [
  | none ↦ fail rpc_failure
  | some current ↦ missing_blocks_from b rpc (max + 2) max current []
]

unfoldable pub backfill : Btcd → Option BitcoinRpcClient → Option StoredBlock → Exec (Unit {0})
unfolding find_missing_blocks process_blocks
backfill b rpc none = pure tt
backfill b rpc (some best) = do missing ← find_missing_blocks b rpc 100; process_blocks missing

unfoldable pub init_blocks_rpc : Btcd → Option BitcoinRpcClient → Exec (Unit {0})
unfolding backfill
init_blocks_rpc b rpc = do best ← best_block_now; backfill b rpc best

unfoldable pub init_mempool_rpc : Option BitcoinRpcClient → Exec (Unit {0})
unfolding process_transactions
init_mempool_rpc none = fail no_rpc_client
init_mempool_rpc (some rpc) = elim rpc.get_raw_mempool_verbose [
  | none ↦ fail (wrap getting_raw_mempool rpc_failure)
  | some mempool ↦ do txs ← lift (raw_mempool_to_transactions mempool); process_transactions txs
]

pub record RunParams : Type 0 where
  pub init_mempool_rpc : Bool
  pub init_blocks_rpc : Bool

-- `Run` up to its loop.
unfoldable pub start : Btcd → Option BitcoinRpcClient → RunParams → Exec (Unit {0})
unfolding init_mempool_rpc init_blocks_rpc
start b rpc params = do
  (if params.init_mempool_rpc then init_mempool_rpc rpc else pure tt)
  (if params.init_blocks_rpc
      then (do found ← has_blocks; (if found then init_blocks_rpc b rpc else pure tt))
      else pure tt)

pub record Stats : Type 0 where
  pub date : Time
  pub count : ℕ

abbrev stats_of : Time → Result ℕ → Option Stats
stats_of date (ok count) = some (record { date = date; count = count })
stats_of date (err e) = none
stats_of date panic = none
stats_of date out_of_fuel = none

-- `dumpStatsRel` at a time. The statistics before only show in the text that is logged.
unfoldable pub dump_stats_rel : Option Stats → Time → Database → Option Stats × Database
dump_stats_rel prev_stats date db = (stats_of date (tx_count db).0, (tx_count db).1)

unfoldable pub dump_stats : Time → Database → Option Stats × Database
unfolding dump_stats_rel
dump_stats date db = dump_stats_rel none date db

-- The daemon in its loop. `quit` is the channel with room for one signal, and `zmq_sub_err` what the
-- subscriber's goroutine has left.
pub record BademeisterDaemon : Type 0 where
  pub zmq_sub : ZmqSubscriber
  pub storage : Database
  pub quit : Bool
  pub zmq_sub_err : Option Error

-- The loop goes on, has returned, or a goroutine has panicked.
pub data Progress : Type 0 where
  running : BademeisterDaemon → Progress
  returned : BademeisterDaemon → Option Error → Progress
  crashed : BademeisterDaemon → Progress

abbrev pub daemon_of : Progress → BademeisterDaemon
daemon_of (running d) = d
daemon_of (returned d e) = d
daemon_of (crashed d) = d

-- What the loop does with the outcome of `processTransaction` or `processBlock`. Where the fuel of
-- CommonAncestor is used up, the code's recursion has no end, and the Go runtime ends the program
-- when its stack is full.
abbrev pub progress_of : Result (Unit {0}) → BademeisterDaemon → Progress
progress_of (ok u) d = running d
progress_of (err e) d = returned d (some e)
progress_of panic d = crashed d
progress_of out_of_fuel d = crashed d

-- A message that is refused ends the subscriber, which is a step of its own; a panic ends all.
abbrev pub delivered : Result (Unit {0}) → BademeisterDaemon → Progress
delivered (ok u) d = running d
delivered (err e) d = running d
delivered panic d = crashed d
delivered out_of_fuel d = crashed d

abbrev take_tx : List Transaction → Database → BademeisterDaemon → BademeisterDaemon
take_tx rest db d = record d { zmq_sub = record d.zmq_sub { incoming_tx = rest }; storage = db }

-- `Run` shows the statistics where `processBlock` has succeeded.
abbrev pub after_block : Result (Unit {0}) → Time → Database → Database
unfolding dump_stats
after_block (ok u) now db = (dump_stats now db).1
after_block (err e) now db = db
after_block panic now db = db
after_block out_of_fuel now db = db

abbrev take_block : List Block → Database → BademeisterDaemon → BademeisterDaemon
take_block rest db d = record d {
  zmq_sub = record d.zmq_sub { incoming_blocks = rest };
  storage = db;
}

-- One step of the loop of `Run`, of the subscriber, or of the loop of the statistics beside it.
-- `select` takes any branch that is ready, so that the branches are alternatives.
pub data Step (b : Btcd) (d : BademeisterDaemon) : Progress → Type 0 where
  message :
      (now : Time) (topic : Topic) (payload : List (List ℕ))
      → Step b d (
          delivered
            (process_message b now topic payload d.zmq_sub).0
            (record d { zmq_sub = (process_message b now topic payload d.zmq_sub).1 }))
  subscriber_returns :
      (e : Option Error) → Step b d (running (record d { quit = true; zmq_sub_err = e }))
  stop : Step b d (running (record d { quit = true }))
  receive_quit : d.quit ≡ true → Step b d (returned d d.zmq_sub_err)
  receive_tx :
      (tx : Transaction) (rest : List Transaction)
      → d.zmq_sub.incoming_tx ≡ tx ∷ rest
      → Step b d (
          progress_of
            (process_transaction tx d.storage).0
            (take_tx rest (process_transaction tx d.storage).1 d))
  receive_block :
      (block : Block) (rest : List Block) (now : Time)
      → d.zmq_sub.incoming_blocks ≡ block ∷ rest
      → Step b d (
          progress_of (process_block block d.storage).0 (
            take_block rest
              (after_block (process_block block d.storage).0 now (process_block block d.storage).1)
              d))
  dump_stats_loop :
      (prev : Option Stats) (now : Time)
      → Step b d (running (record d { storage = (dump_stats_rel prev now d.storage).1 }))

-- A step of another goroutine than that of `Run`.
abbrev pub IsBeside : {b : Btcd} {d : BademeisterDaemon} {p : Progress} → Step b d p → Type 0
IsBeside (message now topic payload) = Unit {0}
IsBeside (subscriber_returns e) = Unit {0}
IsBeside stop = Unit {0}
IsBeside (receive_quit q) = ⊥
IsBeside (receive_tx tx rest e) = ⊥
IsBeside (receive_block block rest now e) = ⊥
IsBeside (dump_stats_loop prev now) = Unit {0}

-- Steps one after the other, as long as the loop runs.
pub data Steps (b : Btcd) (d : BademeisterDaemon) : Progress → Type 0 where
  none_yet : Steps b d (running d)
  and_then :
      {d' : BademeisterDaemon} {p : Progress} → Steps b d (running d') → Step b d' p → Steps b d p
