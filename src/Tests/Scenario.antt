-- ===== src/Tests/Scenario.antt =====
-- The chain of NewTestChainReorg in src/storage/storage_test.go, and one of two branches that are the
-- best in turn, on a driver that visits rows in the order of their ids and fails no statement. Hashes
-- are a repeated byte, times are in seconds.
use x_b10cslashbademeister.Common.{
  ℕ, ◌≡◌, refl, ◌*◌, Bool, true, false, Option, none, some, List, [], ◌∷◌, map, replicate, filter,
  sort_by, insert_by,
}
use x_b10cslashbademeister.Types.{at_second, Hash32, Block, Transaction, StoredTransaction, hash_eq}
use x_b10cslashbademeister.Errors.{Result, ok, is_error_missing_transactions}
use x_b10cslashbademeister.Storage.Database.{
  Database, Engine, Exec, ◌>>◌, statement, format_query, next_rowid,
}
use x_b10cslashbademeister.Storage.Transactions.{
  insert_transactions, has_txid, lower_first_seen, transaction_ids, row_of, upsert_transaction,
  upsert_transactions, insert_values, contains_hash, dbid_by_txid, transaction_dbids, linked_ids,
  contains, to_stored_transaction, query_transactions, query_by_time, next_transactions,
  earlier_transaction, transactions_in_block, transaction_dbids_in_block,
}
use x_b10cslashbademeister.Storage.Insert.{
  insert_block, set_last_removed, update_last_removed, update_best_block, has_hash,
  lower_block_first_seen, block_row, upsert_block, check_height, check_parent, insert_block_row,
  link_rows, add_links, new_links, insert_links, insert_transaction_block, wrap_dbids_error,
  insert_with_best, insert_with_dbids,
}
use x_b10cslashbademeister.Storage.Blocks.{
  to_stored_block, query_blocks, query_block, block_by_hash, later_block, best_block_now,
  best_block_at_time, next_best_blocks, earlier_block,
}
use x_b10cslashbademeister.Storage.Chain.{
  parent_step, ancestor_step, common_ancestor_from, common_ancestor, pairs, walk_to, walk_blocks,
  last_best, scan_heights, earlier_first_seen, reorg_base, blocks_at,
}
use x_b10cslashbademeister.Mempool.Buffers.{
  is_next, scan_buffer, fill_buffer, last_transaction_dbid, last_block_dbid, set_transactions,
  set_blocks, store_transactions, store_blocks, reload_transactions, reload_blocks, is_empty,
  fill_transactions, fill_blocks, pick_transaction, pick_block, next_transaction_from,
  next_block_from, next_transaction, next_block,
}
use x_b10cslashbademeister.Mempool.Events.{
  collect_transactions, collect_dbids, reorged, new_block_event, new_transaction_event, event_of,
  next_event, add_all, remove_all, or_else, apply_event, seek_from, seek,
}
use x_b10cslashbademeister.Mempool.{Mempool}
use x_b10cslashbademeister.Mempool.Create.{
  new_mempool_at_time, last_seen, transactions_by_dbid, new_mempool_without_block,
  new_mempool_at_block, from_best, on_mempool, pair_with,
}

abbrev pub hash_of : ℕ → Hash32
hash_of n = record { bytes = replicate 32 n }

abbrev pub in_order : Engine
in_order = record {
  faults = [];
  scan_transactions = λ rows. rows;
  scan_blocks = λ rows. rows;
  scan_links = λ rows. rows;
}

abbrev pub empty_db : Database
empty_db = record {
  transactions = [];
  blocks = [];
  transaction_blocks = [];
  last_rowid = 0;
  engine = in_order;
}

-- The transaction first seen at a time has the time's tenth for its hash and is row 1 to 9.
abbrev pub tx_at : ℕ → Transaction
tx_at n = record {
  tx_id = hash_of n;
  first_seen = at_second (10 * n);
  last_removed = none;
  fee = n;
  weight = 100;
}

abbrev pub block_at : ℕ → ℕ → ℕ → ℕ → Bool → List ℕ → Block
block_at hash parent height sec best txs = record {
  hash = hash_of hash;
  parent = hash_of parent;
  first_seen = at_second sec;
  height = height;
  is_best = best;
  tx_ids = map hash_of txs;
  encoded_time = none;
}

abbrev pub insert_chain : Exec ℕ
insert_chain = do
  insert_transactions (map tx_at (1 ∷ 2 ∷ 3 ∷ 10 ∷ 11 ∷ 12 ∷ 20 ∷ 21 ∷ 22 ∷ []))
  insert_block (block_at 101 0 0 100 true (1 ∷ []))
  insert_block (block_at 102 101 1 200 true (2 ∷ 10 ∷ []))
  insert_block (block_at 103 102 2 300 true (3 ∷ 11 ∷ []))
  insert_block (block_at 111 101 1 400 false (2 ∷ 20 ∷ []))
  insert_block (block_at 112 111 2 500 true (3 ∷ 21 ∷ []))

abbrev ids_of : List ℕ → (ℕ → Option StoredTransaction) → List ℕ
ids_of [] m = []
ids_of (n ∷ ns) m = let rest = ids_of ns m in elim (m n) [ none ↦ rest | some tx ↦ n ∷ rest ]

abbrev mempool_ids : Result Mempool → List ℕ
mempool_ids (ok m) = ids_of (1 ∷ 2 ∷ 3 ∷ 4 ∷ 5 ∷ 6 ∷ 7 ∷ 8 ∷ 9 ∷ []) m.transactions
mempool_ids _ = []

-- The ids of the transactions in the mempool at a time.
abbrev mempool_at : ℕ → List ℕ
mempool_at t = mempool_ids (new_mempool_at_time 30 (at_second t) (insert_chain empty_db).1).0

-- The column last_removed after the reorg, as the test of the source expects it.
removed_lem :
    map (λ r. r.last_removed) (insert_chain empty_db).1.transactions
    ≡ some 100 ∷ some 500 ∷ some 500 ∷ none ∷ none ∷ none ∷ some 500 ∷ some 500 ∷ none ∷ []
unfolding insert_block set_last_removed update_last_removed update_best_block has_hash
    lower_block_first_seen block_row upsert_block check_height check_parent insert_block_row
    link_rows add_links new_links insert_links insert_transaction_block wrap_dbids_error
    insert_with_best insert_with_dbids insert_transactions has_txid lower_first_seen transaction_ids
    row_of upsert_transaction upsert_transactions insert_values contains_hash dbid_by_txid
    transaction_dbids linked_ids contains to_stored_block query_blocks query_block block_by_hash
    later_block best_block_now parent_step ancestor_step common_ancestor_from common_ancestor
    walk_to walk_blocks pairs statement format_query next_rowid hash_eq filter sort_by insert_by
    is_error_missing_transactions
removed_lem = refl

-- The mempool after the block at 300, before the reorg.
mempool_at-reorg : (mempool_at 300 ≡ 6 ∷ 7 ∷ 8 ∷ 9 ∷ []) × (mempool_at 500 ≡ 4 ∷ 5 ∷ 6 ∷ 9 ∷ [])
unfolding insert_block set_last_removed update_last_removed update_best_block has_hash
    lower_block_first_seen block_row upsert_block check_height check_parent insert_block_row
    link_rows add_links new_links insert_links insert_transaction_block wrap_dbids_error
    insert_with_best insert_with_dbids insert_transactions has_txid lower_first_seen transaction_ids
    row_of upsert_transaction upsert_transactions insert_values contains_hash dbid_by_txid
    transaction_dbids linked_ids contains to_stored_block query_blocks query_block block_by_hash
    later_block best_block_now parent_step ancestor_step common_ancestor_from common_ancestor
    walk_to walk_blocks pairs statement format_query next_rowid hash_eq filter sort_by insert_by
    is_error_missing_transactions best_block_at_time next_best_blocks earlier_block
    to_stored_transaction query_transactions query_by_time next_transactions earlier_transaction
    transactions_in_block transaction_dbids_in_block last_best scan_heights earlier_first_seen
    reorg_base is_next scan_buffer fill_buffer last_transaction_dbid last_block_dbid
    set_transactions set_blocks store_transactions store_blocks reload_transactions reload_blocks
    is_empty fill_transactions fill_blocks pick_transaction pick_block next_transaction_from
    next_block_from next_transaction next_block collect_transactions collect_dbids reorged
    new_block_event new_transaction_event event_of next_event add_all remove_all or_else apply_event
    seek_from seek last_seen transactions_by_dbid new_mempool_without_block new_mempool_at_block
    new_mempool_at_time from_best on_mempool pair_with blocks_at
mempool_at-reorg = (refl, refl)

-- Two branches, each the best chain in turn. Block 111 confirms the one transaction.
abbrev insert_forks : Exec ℕ
insert_forks = do
  insert_transactions (tx_at 1 ∷ [])
  insert_block (block_at 101 0 0 50 true [])
  insert_block (block_at 111 101 1 90 true (1 ∷ []))
  insert_block (block_at 121 101 1 100 true [])
  insert_block (block_at 112 111 2 190 true [])
  insert_block (block_at 122 121 2 200 true [])
  insert_block (block_at 113 112 3 210 true [])

-- The mempool at block 112 has the transaction, which the parent of the block confirms.
confirmed_by_parent :
    mempool_ids
      (new_mempool_at_block
        (record { dbid = 4; block = block_at 112 111 2 190 true [] })
        (insert_forks empty_db).1).0
    ≡ 1 ∷ []
unfolding insert_block set_last_removed update_last_removed update_best_block has_hash
    lower_block_first_seen block_row upsert_block check_height check_parent insert_block_row
    link_rows add_links new_links insert_links insert_transaction_block wrap_dbids_error
    insert_with_best insert_with_dbids insert_transactions has_txid lower_first_seen transaction_ids
    row_of upsert_transaction upsert_transactions insert_values contains_hash dbid_by_txid
    transaction_dbids linked_ids contains to_stored_block query_blocks query_block block_by_hash
    later_block best_block_now parent_step ancestor_step common_ancestor_from common_ancestor
    walk_to walk_blocks pairs statement format_query next_rowid hash_eq filter sort_by insert_by
    is_error_missing_transactions best_block_at_time next_best_blocks earlier_block
    to_stored_transaction query_transactions query_by_time next_transactions earlier_transaction
    transactions_in_block transaction_dbids_in_block last_best scan_heights earlier_first_seen
    reorg_base is_next scan_buffer fill_buffer last_transaction_dbid last_block_dbid
    set_transactions set_blocks store_transactions store_blocks reload_transactions reload_blocks
    is_empty fill_transactions fill_blocks pick_transaction pick_block next_transaction_from
    next_block_from next_transaction next_block collect_transactions collect_dbids reorged
    new_block_event new_transaction_event event_of next_event add_all remove_all or_else apply_event
    seek_from seek last_seen transactions_by_dbid new_mempool_without_block new_mempool_at_block
    new_mempool_at_time from_best on_mempool pair_with blocks_at
confirmed_by_parent = refl
