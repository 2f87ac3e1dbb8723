-- ===== src/Mempool/Create/AtBlock.antt =====
-- The mempool that `NewMempoolAtBlock` builds, against the tables.
use x_b10cslashbademeister.Common.{
  ℕ, ◌≡◌, ◌≢◌, refl, ap, ◌↔◌, ◌⊎◌, inl, inr, true, false, Bool-cases, none, some, [], arith,
}
use x_b10cslashbademeister.Types.{hash_eq, hash_eq_iff, StoredBlock, StoredTransaction}
use x_b10cslashbademeister.Errors.{Result, ok, err, not_on_consensus_chain}
use x_b10cslashbademeister.Storage.Database.{Database, pure, ◌>>=◌}
use x_b10cslashbademeister.Storage.Database.Runs.{statement_lem}
use x_b10cslashbademeister.Storage.Transactions.{contains, transaction_dbids_in_block}
use x_b10cslashbademeister.Storage.Blocks.Lookup.{block_by_hash_lem}
use x_b10cslashbademeister.Storage.Chain.{reorg_base, walk_blocks}
use x_b10cslashbademeister.Storage.Chain.Linked.{HasChains}
use x_b10cslashbademeister.Mempool.{Mempool}
use x_b10cslashbademeister.Mempool.Events.{
  Event, block_confirmation, reorged, new_block_event, collect_dbids, apply_event,
}
use x_b10cslashbademeister.Mempool.Events.Branches.{linked_dbids}
use x_b10cslashbademeister.Mempool.Events.Links.{remove_all-In}
use x_b10cslashbademeister.Mempool.Events.Reorg.{UniqueIds}
use x_b10cslashbademeister.Mempool.Create.{
  on_mempool, pair_with, new_mempool_at_block, new_mempool_without_block,
}
use x_b10cslashbademeister.Mempool.Create.View.{Waits, Built, new_mempool_without_block-Built}

-- A mempool at a block: what waits at the time of the block, less what the block itself confirms.
pub record AtBlock (db : Database) (block : StoredBlock) (out : Result Mempool × Database)
    : Type 0 where
  pub mempool : Mempool
  pub returns : out ≡ (ok mempool, db)
  pub at_time : mempool.time ≡ block.first_seen
  pub at_block : mempool.last_block ≡ some block
  pub entries :
      (id : ℕ) (tx : StoredTransaction)
      → (mempool.transactions id ≡ some tx) ↔ (
          Waits db.transactions block.first_seen id tx
          × (contains id (linked_dbids db block) ≡ false))

module _ (db : Database) (chains : HasChains db) (block : StoredBlock) where
  collect_once : collect_dbids block [] db ≡ (ok (linked_dbids db block), db)
  unfolding collect_dbids transaction_dbids_in_block
  collect_once = rw (statement_lem, chains.sound.no_faults) refl

  walk_once : walk_blocks block none collect_dbids [] db ≡ (ok (linked_dbids db block), db)
  unfolding walk_blocks
  walk_once = rw (collect_once, block_by_hash_lem block.parent db chains.sound chains.unique) refl

  confirmation : Event
  confirmation = record {
    time = block.first_seen;
    type = block_confirmation;
    new_block = some block;
    new_transaction = none;
    add_transactions = [];
    remove_transactions = linked_dbids db block;
  }

  new_block_event_lem :
      (m : Mempool)
      → m.last_block ≡ none
      → new_block_event block (record { mempool = m; db = db })
        ≡ (ok confirmation, record { mempool = m; db = db })
  unfolding new_block_event reorged confirmation
  new_block_event_lem m e = rw (e, walk_once) refl

  event_run :
      (m : Mempool)
      → m.last_block ≡ none
      → on_mempool m (new_block_event block) db ≡ (ok (confirmation, m), db)
  unfolding on_mempool pair_with
  event_run m e = rw (new_block_event_lem m e) refl

  applied-AtBlock :
      (built : Built db block.first_seen (new_mempool_without_block block.first_seen db))
      → new_mempool_at_block block db ≡ (ok (apply_event confirmation built.mempool), db)
      → AtBlock db block (new_mempool_at_block block db)
  unfolding apply_event confirmation
  applied-AtBlock built e = record {
    mempool = apply_event confirmation built.mempool;
    returns = e;
    at_time = refl;
    at_block = refl;
    entries = λ id tx.
        let removed = remove_all-In (linked_dbids db block) built.mempool.transactions id in
        let there = built.entries id tx in
        elim (Bool-cases (contains id (linked_dbids db block))) [
          | inl gone ↦ (
            λ q. absurd (ground (arith, q, removed, gone)),
            λ w. absurd (ground (arith, w.1, gone)),
          )
          | inr kept ↦ (
            λ q. (there.0 (ground (arith, q, removed, kept)), kept),
            λ w. ground (arith, removed, kept, there.1 w.0),
          )
        ];
  }

  new_mempool_at_block-run :
      (base : StoredBlock)
      (built : Built db block.first_seen (new_mempool_without_block block.first_seen db))
      → reorg_base block.block db ≡ (ok base, db)
      → hash_eq base.hash block.hash ≡ true
      → new_mempool_at_block block db ≡ (ok (apply_event confirmation built.mempool), db)
  unfolding new_mempool_at_block
  new_mempool_at_block-run base built e f =
      rw (e, f, built.returns)
        (ap
          (λ (o : Result (Event × Mempool) × Database).
            ((λ (d : Database). o) >>= λ x. pure (apply_event x.0 x.1)) db)
          (event_run built.mempool built.no_block))

  -- On chains and where no statement fails, for a block for which ReorgBase returns a block: where
  -- that is the block itself, NewMempoolAtBlock returns the mempool at the time of the block, which
  -- has exactly the stored transactions that had been seen then, whose column last_removed is now
  -- null or later than that time, and that the block itself does not confirm; otherwise it returns
  -- an error. The tables do not change. The column tells of the last reorg alone: a transaction that
  -- an ancestor of the block confirms is in the mempool if a later block has set it anew.
  pub new_mempool_at_block-AtBlock :
      UniqueIds db.transactions
      → (base : StoredBlock) → reorg_base block.block db ≡ (ok base, db)
      → ((base.hash ≡ block.hash) × AtBlock db block (new_mempool_at_block block db))
        ⊎ ((base.hash ≢ block.hash)
            × (new_mempool_at_block block db
                ≡ (err (not_on_consensus_chain block.hash base.hash), db)))
  unfolding new_mempool_at_block
  new_mempool_at_block-AtBlock keys base e = elim (Bool-cases (hash_eq base.hash block.hash)) [
    | inl f ↦
        let built = new_mempool_without_block-Built block.first_seen db chains keys in
        inl (
          (hash_eq_iff base.hash block.hash).0 f,
          applied-AtBlock built (new_mempool_at_block-run base built e f),
        )
    | inr f ↦ inr (
      λ same. absurd (ground (arith, f, (hash_eq_iff base.hash block.hash).1 same)),
      rw (e, f) refl,
    )
  ]
