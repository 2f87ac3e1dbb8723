-- ===== src/Daemon/Started.antt =====
-- What `Run` as a whole preserves, from its call on: the start before the loop, and the loop.
use x_b10cslashbademeister.Common.{
  inl, inr, Bool, true, false, Option, none, some, Option-cases, List, [], ◌∷◌, if◌then◌else◌,
}
use x_b10cslashbademeister.Types.{Block, StoredBlock}
use x_b10cslashbademeister.Wire.{Btcd}
use x_b10cslashbademeister.Rpc.{BitcoinRpcClient, raw_mempool_to_transactions}
use x_b10cslashbademeister.Storage.Database.{Database, Exec, pure, lift, ◌>>=◌}
use x_b10cslashbademeister.Storage.Blocks.{best_block_now, has_blocks}
use x_b10cslashbademeister.Storage.Insert.Preserved.{
  IsPreserved, stays, Preserves, Upserts, bind-Preserves,
}
use x_b10cslashbademeister.Storage.Insert.Preserved.Walks.{best_block_now-Preserves}
use x_b10cslashbademeister.Daemon.{
  process_transactions, process_block, process_blocks, find_missing_blocks, backfill,
  init_blocks_rpc, init_mempool_rpc, RunParams, start, BademeisterDaemon, Progress, daemon_of,
  dump_stats, running, crashed,
}
use x_b10cslashbademeister.Daemon.Preserved.{
  Step-Preserves, Steps-Preserves, process_transactions-Preserves, process_block-Preserves,
  dump_stats_rel-Preserves,
}
use x_b10cslashbademeister.Daemon.Fetched.{find_missing_blocks-Preserves}
use x_b10cslashbademeister.Daemon.Service.{
  RunsTo, start_fails, beside, beside_panics, start_overflows, start_panics, loops, with_storage,
}

module _ (R : Database → Database → Type 0) (kept : IsPreserved R)
    (upserts : (block : Block) → Upserts R block) where
  process_blocks-Preserves : (blocks : List Block) → Preserves R (process_blocks blocks)
  unfolding process_blocks
  process_blocks-Preserves [] = stays R kept
  process_blocks-Preserves (block ∷ blocks) =
      bind-Preserves R kept (process_block block) (λ u. process_blocks blocks)
        (process_block-Preserves R kept block (upserts block)) λ u. process_blocks-Preserves blocks

  backfill-Preserves :
      (b : Btcd) (rpc : Option BitcoinRpcClient) (best : Option StoredBlock)
      → Preserves R (backfill b rpc best)
  unfolding backfill
  backfill-Preserves b rpc none = stays R kept
  backfill-Preserves b rpc (some best) =
      bind-Preserves R kept (find_missing_blocks b rpc 100) process_blocks
        (find_missing_blocks-Preserves R kept b rpc 100) process_blocks-Preserves

  init_blocks_rpc-Preserves :
      (b : Btcd) (rpc : Option BitcoinRpcClient) → Preserves R (init_blocks_rpc b rpc)
  unfolding init_blocks_rpc
  init_blocks_rpc-Preserves b rpc =
      bind-Preserves R kept best_block_now (backfill b rpc) (best_block_now-Preserves R kept)
        λ best. backfill-Preserves b rpc best

  init_mempool_rpc-Preserves : (rpc : Option BitcoinRpcClient) → Preserves R (init_mempool_rpc rpc)
  unfolding init_mempool_rpc
  init_mempool_rpc-Preserves none db = stays R kept db
  init_mempool_rpc-Preserves (some rpc) db = elim (Option-cases rpc.get_raw_mempool_verbose) [
    | inl e ↦ rw e (stays R kept db)
    | inr (mempool, e) ↦ rw e (
        bind-Preserves R kept (lift (raw_mempool_to_transactions mempool)) process_transactions
          (stays R kept) (process_transactions-Preserves R kept) db)
  ]

  if-Preserves :
      (c : Bool) (m : Exec (Unit {0})) → Preserves R m → Preserves R (if c then m else pure tt)
  if-Preserves true m k = k
  if-Preserves false m k = stays R kept

  has_blocks-Preserves : Preserves R has_blocks
  unfolding has_blocks
  has_blocks-Preserves =
      bind-Preserves R kept best_block_now _ (best_block_now-Preserves R kept) λ block. stays R kept

  start-Preserves :
      (b : Btcd) (rpc : Option BitcoinRpcClient) (params : RunParams)
      → Preserves R (start b rpc params)
  unfolding start
  start-Preserves b rpc params =
      let backfilling : Exec (Unit {0}) =
        has_blocks >>= λ found. if found then init_blocks_rpc b rpc else pure tt in
      bind-Preserves R kept (if params.init_mempool_rpc then init_mempool_rpc rpc else pure tt)
        (λ u. if params.init_blocks_rpc then backfilling else pure tt)
        (if-Preserves params.init_mempool_rpc (init_mempool_rpc rpc)
          (init_mempool_rpc-Preserves rpc))
        λ u. if-Preserves params.init_blocks_rpc backfilling (
          bind-Preserves R kept has_blocks _ has_blocks-Preserves
            λ found. if-Preserves found (init_blocks_rpc b rpc) (init_blocks_rpc-Preserves b rpc))

  pub RunsTo-Preserved :
      (b : Btcd) (rpc : Option BitcoinRpcClient) (params : RunParams) (d : BademeisterDaemon)
      → (p : Progress) → RunsTo b rpc params d p
      → R d.storage (daemon_of p).storage
  unfolding dump_stats
  RunsTo-Preserved b rpc params d p (start_fails e f) = start-Preserves b rpc params d.storage
  RunsTo-Preserved b rpc params d p (start_panics f) = start-Preserves b rpc params d.storage
  RunsTo-Preserved b rpc params d p (start_overflows f) = start-Preserves b rpc params d.storage
  RunsTo-Preserved b rpc params d p (beside {d'} step q run) =
      kept.trans _ _ _ (Step-Preserves R kept upserts b d (running d') step)
        (RunsTo-Preserved b rpc params d' p run)
  RunsTo-Preserved b rpc params d p (beside_panics {d'} step q) =
      Step-Preserves R kept upserts b d (crashed d') step
  RunsTo-Preserved b rpc params d p (loops now f steps) =
      let started : Database = (start b rpc params d.storage).1 in
      let shown : Database = (dump_stats now started).1 in
      kept.trans _ _ _ (start-Preserves b rpc params d.storage) (
        kept.trans _ _ _ (dump_stats_rel-Preserves R kept none now started)
          (Steps-Preserves R kept upserts b (with_storage shown d) p steps))
