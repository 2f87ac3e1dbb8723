-- ===== src/Tests/Mempool.antt =====
-- The theorems on the mempool, at the moment of the scenario when the block 103 is its tip and the
-- blocks of the other branch are stored.
use x_b10cslashbademeister.Common.{
  ℕ, suc, ◌+◌, length, ◌≡◌, ◌≢◌, ◌⊎◌, ◌↔◌, filter, sort_by, insert_by, refl, inl, inr, true, Option,
  none, some, List, [], ◌∷◌, In, arith,
}
use x_b10cslashbademeister.Types.{hash_eq, at_second, StoredBlock, StoredTransaction}
use x_b10cslashbademeister.Errors.{ok, err, not_on_consensus_chain}
use x_b10cslashbademeister.Storage.Database.{TransactionRow, BlockRow, statement, format_query}
use x_b10cslashbademeister.Storage.Transactions.{to_stored_transaction}
use x_b10cslashbademeister.Storage.Blocks.{
  to_stored_block, query_blocks, query_block, block_by_hash,
}
use x_b10cslashbademeister.Storage.Chain.{
  reorg_base, scan_heights, blocks_at, last_best, common_ancestor, pairs, common_ancestor_from,
  ancestor_step, parent_step, earlier_first_seen,
}
use x_b10cslashbademeister.Mempool.{Mempool, Session}
use x_b10cslashbademeister.Mempool.Buffers.{
  next_transaction, next_block, last_transaction_dbid, last_block_dbid,
}
use x_b10cslashbademeister.Mempool.Buffers.Window.{IsNext, not_filled}
use x_b10cslashbademeister.Mempool.Buffers.Transactions as Transactions
use x_b10cslashbademeister.Mempool.Buffers.Transactions.{next_transaction-IsNext}
use x_b10cslashbademeister.Mempool.Buffers.Blocks.{best_rows, next_block-IsNext}
use x_b10cslashbademeister.Mempool.Buffers.Blocks as Blocks
use x_b10cslashbademeister.Mempool.Events.Reorg.{UniqueIds, Followed, new_block_event-Followed}
use x_b10cslashbademeister.Mempool.Events.{seek}
use x_b10cslashbademeister.Mempool.Events.Next.{IsReady}
use x_b10cslashbademeister.Mempool.Events.Sought.{Ends, seek-Ends}
use x_b10cslashbademeister.Mempool.Create.{
  new_mempool_without_block, new_mempool_at_block, transactions_of,
}
use x_b10cslashbademeister.Mempool.Create.AtBlock.{AtBlock, new_mempool_at_block-AtBlock}
use x_b10cslashbademeister.Mempool.Create.View.{Waits, Built, new_mempool_without_block-Built}
use x_b10cslashbademeister.Mempool.Create.Copies.{IsKeys, transactions_of-Waits}
use x_b10cslashbademeister.Tests.Scenario.{hash_of, block_at}
use x_b10cslashbademeister.Tests.Chain.{
  row, tx_row, reorg_rows, reorg_db, old_tip, new_tip, reorg-HasChains, in_order-IsSound,
  base-found, old_tip-IsStored, new_tip-IsStored, old_tip-Ancestor, new_tip-Ancestor,
}

abbrev mempool : Mempool
mempool = record {
  time = at_second 300;
  last_block = some old_tip;
  next_blocks = [];
  next_block_buffer_size = 2;
  last_transaction = none;
  next_transactions = [];
  next_transactions_buffer_size = 3;
  transactions = λ id. none;
}

abbrev session : Session
session = record { mempool = mempool; db = reorg_db }

reorg-UniqueIds : UniqueIds reorg_db.transactions
reorg-UniqueIds = record { unique_id = λ r s i j e. ground arith }

new_block_event-Followed_example : Followed session (hash_of 101) old_tip new_tip
new_block_event-Followed_example =
    new_block_event-Followed session (hash_of 101) (to_stored_block (row 1 101 0 0 100 true))
      old_tip new_tip reorg-HasChains reorg-UniqueIds base-found old_tip-IsStored new_tip-IsStored
      old_tip-Ancestor new_tip-Ancestor refl

next_transaction-IsNext_example :
    (found : Option StoredTransaction) × (buffer : List (Option StoredTransaction))
    × (next_transaction session ≡ (ok found, Transactions.buffered buffer session))
    × IsNext
        (λ (r : TransactionRow). r.first_seen)
        (λ r. r.id)
        to_stored_transaction
        reorg_db.transactions
        300
        (last_transaction_dbid mempool)
        found
    × Transactions.Ahead session 2 in_order-IsSound refl refl buffer
next_transaction-IsNext_example =
    next_transaction-IsNext session 2 in_order-IsSound refl refl not_filled

next_block-IsNext_example :
    (found : Option StoredBlock) × (buffer : List (Option StoredBlock)) × (next_block session
      ≡ (ok found, Blocks.buffered buffer session))
    × IsNext
        (λ (r : BlockRow). r.first_seen)
        (λ r. r.id)
        to_stored_block
        (best_rows reorg_db.blocks)
        300
        (last_block_dbid mempool)
        found
    × Blocks.Ahead session 1 in_order-IsSound refl refl buffer
next_block-IsNext_example = next_block-IsNext session 1 in_order-IsSound refl refl not_filled

session-IsReady : IsReady session
session-IsReady = record {
  chains = reorg-HasChains;
  whole = refl;
  n = 2;
  m = 1;
  transaction_size = refl;
  block_size = refl;
  transactions_ahead = not_filled;
  blocks_ahead = not_filled;
  last = λ b e. let same : old_tip ≡ b = cc in rw (← same) old_tip-IsStored;
}

seek-Ends_example :
    Ends session
      (at_second 600)
      (seek (suc (4 + length (best_rows reorg_rows))) (at_second 600) session)
seek-Ends_example = seek-Ends (at_second 600) session session-IsReady refl

new_mempool_without_block-Built_example :
    Built reorg_db (at_second 250) (new_mempool_without_block (at_second 250) reorg_db)
new_mempool_without_block-Built_example =
    new_mempool_without_block-Built (at_second 250) reorg_db reorg-HasChains reorg-UniqueIds

-- At that time the transactions 3 and 4 wait.
abbrev at_250 : Built reorg_db (at_second 250) (new_mempool_without_block (at_second 250) reorg_db)
at_250 = new_mempool_without_block-Built (at_second 250) reorg_db reorg-HasChains reorg-UniqueIds

waiting_key :
    (id : ℕ) (tx : StoredTransaction)
    → Waits reorg_db.transactions (at_second 250) id tx
    → In id (3 ∷ 4 ∷ [])
waiting_key id tx w = ground (arith, w.in_rows, w.same_id, w.not_removed 100, w.not_removed 200)

third-Waits :
    Waits reorg_db.transactions (at_second 250) 3 (to_stored_transaction (tx_row 3 30 (some 300)))
third-Waits = record {
  row = tx_row 3 30 (some 300);
  in_rows = inr (inr (inl refl));
  same_id = refl;
  same = refl;
  seen = omega arith;
  not_removed = λ sec e. ground (arith, e);
}

fourth-Waits :
    Waits reorg_db.transactions (at_second 250) 4 (to_stored_transaction (tx_row 4 40 none))
fourth-Waits = record {
  row = tx_row 4 40 none;
  in_rows = inr (inr (inr (inl refl)));
  same_id = refl;
  same = refl;
  seen = omega arith;
  not_removed = λ sec e. absurd (cc);
}

at_250-IsKeys : IsKeys (3 ∷ 4 ∷ []) at_250.mempool
at_250-IsKeys = record {
  keys = λ id. (
    λ i. elim i [
      | inl e ↦ rw e (_, (at_250.entries 3 _).1 third-Waits)
      | inr (inl e) ↦ rw e (_, (at_250.entries 4 _).1 fourth-Waits)
      | inr (inr f) ↦ absurd f
    ],
    λ found. waiting_key id found.0 ((at_250.entries id found.0).0 found.1),
  );
}

transactions_of-Waits_example :
    In
      (to_stored_transaction (tx_row 4 40 none)).transaction
      (transactions_of (3 ∷ 4 ∷ []) at_250.mempool)
    ↔ ((id : ℕ) × (stx : StoredTransaction) × Waits reorg_db.transactions (at_second 250) id stx
        × (stx.transaction ≡ (to_stored_transaction (tx_row 4 40 none)).transaction))
transactions_of-Waits_example =
    transactions_of-Waits reorg_db (at_second 250) at_250.mempool reorg-HasChains reorg-UniqueIds
      at_250.returns (3 ∷ 4 ∷ []) at_250-IsKeys
      (to_stored_transaction (tx_row 4 40 none)).transaction

-- The last block of the other branch, as it is stored.
abbrev tip : StoredBlock
tip = record { dbid = 5; block = block_at 112 111 2 500 true [] }

tip-base : reorg_base tip.block reorg_db ≡ (ok tip, reorg_db)
unfolding reorg_base scan_heights blocks_at last_best query_blocks query_block block_by_hash
    format_query filter sort_by insert_by to_stored_block hash_eq common_ancestor pairs
    common_ancestor_from ancestor_step parent_step earlier_first_seen statement
tip-base = refl

new_mempool_at_block-AtBlock_example :
    ((tip.hash ≡ tip.hash) × AtBlock reorg_db tip (new_mempool_at_block tip reorg_db))
    ⊎ ((tip.hash ≢ tip.hash)
        × (new_mempool_at_block tip reorg_db
            ≡ (err (not_on_consensus_chain tip.hash tip.hash), reorg_db)))
new_mempool_at_block-AtBlock_example =
    new_mempool_at_block-AtBlock reorg_db reorg-HasChains tip reorg-UniqueIds tip tip-base
