-- ===== src/Storage/Insert.antt =====
-- The methods of src/storage/storage_block.go that write: updateLastRemoved, updateBestBlock,
-- insertBlock, insertTransactionBlock and InsertBlock.
pub mod Anchored
pub mod Best
pub mod Chains
pub mod Checked
pub mod Confirmed
pub mod Rows
pub mod Kept
pub mod Failures
pub mod Grown
pub mod Preserved
pub mod Whole
use x_b10cslashbademeister.Common.{
  ℕ, suc, ◌+◌, ◌%◌, ◌^◌, Bool, true, false, not, ◌&&◌, ◌||◌, Option, none, some, List, [], ◌∷◌,
  ◌++◌, map, ltb, ◌==◌, if◌then◌else◌, ℤ, pos, negsuc,
}
use x_b10cslashbademeister.Types.{Time, Hash32, zero_hash, hash_eq, Block, StoredBlock}
use x_b10cslashbademeister.Errors.{
  Result, ok, err, panic, out_of_fuel, Error, wrap, is_error_missing_transactions, parent_block_nil,
  invalid_block_height, inserting_block, inserting_links, in_insert_block,
  in_insert_transaction_block, getting_tx_dbids,
}
use x_b10cslashbademeister.Storage.Database.{
  Database, TransactionRow, BlockRow, LinkRow, Exec, pure, fail, lift, ◌>>=◌, ◌>>◌, wrap_exec,
  statement, next_rowid,
}
use x_b10cslashbademeister.Storage.Transactions.{linked_ids, contains, transaction_dbids}
use x_b10cslashbademeister.Storage.Blocks.{block_by_hash, best_block_now}
use x_b10cslashbademeister.Storage.Chain.{common_ancestor, walk_blocks}

-- SET last_removed = … WHERE id IN (…)
unfoldable pub set_last_removed : List ℕ → Option ℕ → List TransactionRow → List TransactionRow
unfolding contains
set_last_removed ids value [] = []
set_last_removed ids value (r ∷ rows) =
    (if contains r.id ids then record r { last_removed = value } else r)
    ∷ set_last_removed ids value rows

unfoldable pub update_last_removed : StoredBlock → Option Time → Exec (Unit {0})
unfolding set_last_removed
update_last_removed block last_removed = statement λ db.
    let value : Option ℕ = elim last_removed [ none ↦ none | some t ↦ some t.sec ] in
    (
      ok tt,
      record db {
        transactions =
            set_last_removed (linked_ids block.dbid db.transaction_blocks) value db.transactions;
      },
    )

unfoldable pub update_best_block : Option StoredBlock → StoredBlock → Exec (Unit {0})
unfolding update_last_removed
update_best_block none new_best = update_last_removed new_best (some new_best.first_seen)
update_best_block (some last_best) new_best = do
  ancestor ← common_ancestor new_best last_best
  walk_blocks last_best (some ancestor) (λ block s. update_last_removed block none) tt
  walk_blocks new_best (some ancestor)
      (λ block s. update_last_removed block (some new_best.first_seen)) tt

unfoldable pub has_hash : Hash32 → List BlockRow → Bool
has_hash h [] = false
has_hash h (r ∷ rows) = hash_eq r.hash h || has_hash h rows

-- ON CONFLICT(hash) DO UPDATE SET first_seen … WHERE first_seen > excluded.first_seen
unfoldable pub lower_block_first_seen : Hash32 → ℕ → List BlockRow → List BlockRow
lower_block_first_seen h sec [] = []
lower_block_first_seen h sec (r ∷ rows) =
    (if hash_eq r.hash h && ltb sec r.first_seen then record r { first_seen = sec } else r)
    ∷ lower_block_first_seen h sec rows

unfoldable pub block_row : ℕ → Block → BlockRow
block_row id block = record {
  id = id;
  hash = block.hash;
  parent = block.parent;
  first_seen = block.first_seen.sec;
  height = block.height;
  is_best = block.is_best;
}

unfoldable pub upsert_block : Block → Database → Database
unfolding has_hash lower_block_first_seen block_row
upsert_block block db =
    if has_hash block.hash db.blocks
    then record db { blocks = lower_block_first_seen block.hash block.first_seen.sec db.blocks }
    else let id = next_rowid (map (λ (r : BlockRow). r.id) db.blocks) in
      record db { blocks = db.blocks ++ block_row id block ∷ []; last_rowid = id }

-- The sanity check of `insertBlock`, on the parent that was looked up.
unfoldable pub check_height : Block → Option StoredBlock → Exec (Unit {0})
check_height block none = fail parent_block_nil
check_height block (some parent_block) =
    if block.height == (parent_block.height + 1) % 2 ^ 32
    then pure tt
    else fail (invalid_block_height block.height block.hash)

unfoldable pub check_parent : Block → Bool → Exec (Unit {0})
unfolding check_height
check_parent block first_block =
    if not (hash_eq block.parent zero_hash) && not first_block
    then (do parent_block ← block_by_hash block.parent; check_height block parent_block)
    else pure tt

-- `insertBlock`. The result is LastInsertId, which an upsert of a stored block leaves as it was.
unfoldable pub insert_block_row : Block → Bool → Exec ℕ
unfolding check_parent upsert_block
insert_block_row block first_block = do
  check_parent block first_block
  wrap_exec inserting_block
      (statement λ db. let db' = upsert_block block db in (ok db'.last_rowid, db'))

-- The tuples for the ids above 0, with the index of each in the list. Row ids go up by one.
unfoldable pub link_rows : ℕ → ℕ → ℕ → List ℤ → List LinkRow
link_rows rowid block_id index [] = []
link_rows rowid block_id index (negsuc n ∷ dbids) = link_rows rowid block_id (suc index) dbids
link_rows rowid block_id index (pos dbid ∷ dbids) = elim (ltb 0 dbid) [
  | true ↦
      record { rowid = rowid; transaction_id = dbid; block_id = block_id; block_index = index }
      ∷ link_rows (suc rowid) block_id (suc index) dbids
  | false ↦ link_rows rowid block_id (suc index) dbids
]

last_link : List LinkRow → ℕ → ℕ
last_link [] rowid = rowid
last_link (l ∷ links) rowid = last_link links l.rowid

unfoldable pub add_links : List LinkRow → Exec (Unit {0})
unfolding last_link
add_links links db = (
  ok tt,
  record db {
    transaction_blocks = db.transaction_blocks ++ links;
    last_rowid = last_link links db.last_rowid;
  },
)

unfoldable pub new_links : ℕ → List ℤ → Database → List LinkRow
unfolding link_rows
new_links block_id dbids db =
    link_rows (next_rowid (map (λ (l : LinkRow). l.rowid) db.transaction_blocks)) block_id 0 dbids

unfoldable pub insert_links : List LinkRow → Exec (Unit {0})
unfolding add_links
insert_links [] = pure tt
insert_links (l ∷ links) = wrap_exec inserting_links (statement (add_links (l ∷ links)))

-- `insertTransactionBlock`: no statement, where no transaction of the block is stored.
unfoldable pub insert_transaction_block : ℕ → List ℤ → Exec (Unit {0})
unfolding insert_links new_links
insert_transaction_block block_id dbids db = insert_links (new_links block_id dbids db) db

unfoldable pub wrap_dbids_error : Error → Error
wrap_dbids_error e = if is_error_missing_transactions e then e else wrap getting_tx_dbids e

-- `InsertBlock` after the ids are known, with the outcome of `BestBlockNow`. On its error the code
-- returns `0, err` for the `err` of the call before, which is nil.
unfoldable pub insert_with_best : Block → List ℤ → Result (Option StoredBlock) → Exec ℕ
insert_with_best block dbids (err e) = pure 0
insert_with_best block dbids panic = lift panic
insert_with_best block dbids out_of_fuel = lift out_of_fuel
insert_with_best block dbids (ok current_best) = do
  block_id ←
      wrap_exec in_insert_block
        (insert_block_row block (elim current_best [ none ↦ true | some b ↦ false ]))
  wrap_exec in_insert_transaction_block (insert_transaction_block block_id dbids)
  (if block.is_best
      then update_best_block current_best (record { dbid = block_id; block = block })
      else pure tt)
  pure block_id

unfoldable pub insert_with_dbids : Block → Result (List ℤ) → Exec ℕ
unfolding insert_with_best
insert_with_dbids block (err e) = fail (wrap_dbids_error e)
insert_with_dbids block panic = lift panic
insert_with_dbids block out_of_fuel = lift out_of_fuel
insert_with_dbids block (ok dbids) =
    λ db. let (best, db') = best_block_now db in insert_with_best block dbids best db'

unfoldable pub insert_block : Block → Exec ℕ
unfolding insert_with_dbids insert_block_row insert_transaction_block update_best_block
    wrap_dbids_error
insert_block block db =
    let (dbids, db') = transaction_dbids block.tx_ids db in insert_with_dbids block dbids db'
