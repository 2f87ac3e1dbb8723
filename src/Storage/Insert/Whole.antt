-- ===== src/Storage/Insert/Whole.antt =====
-- `InsertBlock` as a whole, where it succeeds: the row of the block, its links and the column
-- `last_removed`.
use x_b10cslashbademeister.Common.{ℕ, suc, ◌≡◌, true, false, some, List, [], ◌∷◌, ◌++◌, map, ℤ}
use x_b10cslashbademeister.Types.{Hash32, Block, StoredBlock}
use x_b10cslashbademeister.Errors.{Result, ok}
use x_b10cslashbademeister.Storage.Database.{Database, BlockRow, LinkRow, next_rowid}
use x_b10cslashbademeister.Storage.Transactions.Upsert.{find_transaction}
use x_b10cslashbademeister.Storage.Transactions.Ids.{UniqueTxids, stored_id}
use x_b10cslashbademeister.Storage.Blocks.Lookup.{find_block}
use x_b10cslashbademeister.Storage.Chain.Linked.{HasChains}
use x_b10cslashbademeister.Storage.Insert.{has_hash, upsert_block, new_links, link_rows, add_links}
use x_b10cslashbademeister.Storage.Insert.Chains.{IsInsertable}
use x_b10cslashbademeister.Storage.Insert.Confirmed.{Confirms}
use x_b10cslashbademeister.Storage.Insert.Best.{Reassigned}

-- The ids of the transactions of a block, where no statement fails.
abbrev pub ids_of : Block → Database → List ℤ
ids_of block db = map (λ h. stored_id (find_transaction h db.transactions)) block.tx_ids

abbrev pub id_for : Database → ℕ
id_for db = next_rowid (map (λ (r : BlockRow). r.id) db.blocks)

abbrev links_of : Block → Database → List LinkRow
links_of block db =
    link_rows (next_rowid (map (λ (l : LinkRow). l.rowid) db.transaction_blocks)) (id_for db) 0
      (ids_of block db)

-- The tables with the row of the block and its links.
abbrev with_links : Block → Database → Database
with_links block db =
    (add_links (new_links (id_for db) (ids_of block db) (upsert_block block db))
      (upsert_block block db)).1

-- A successful InsertBlock of a block on top of the block `p`: the new row, one link for each
-- stored transaction of the block, and the column reassigned between the two branches.
pub record Inserted (db : Database) (block : Block) (h : Hash32) (last_best : StoredBlock)
    (out : Result ℕ × Database) : Type 0 where
  pub returns : out.0 ≡ ok (id_for db)
  pub middle : Database
  pub same_transactions : middle.transactions ≡ db.transactions
  pub new_row :
      middle.blocks
      ≡ db.blocks
        ++ record {
          id = id_for db;
          hash = block.hash;
          parent = block.parent;
          first_seen = block.first_seen.sec;
          height = block.height;
          is_best = true;
        }
          ∷ []
  pub links : List LinkRow
  pub new_links : middle.transaction_blocks ≡ db.transaction_blocks ++ links
  pub confirms : Confirms db.transactions (id_for db) block.tx_ids links
  pub moved :
      Reassigned middle h last_best (record { dbid = id_for db; block = block }) (ok tt, out.1)
  pub chains : HasChains out.1

module _ (db : Database) (block : Block) (chains : HasChains db)
    (unique : UniqueTxids db.transactions) (fits : IsInsertable db.blocks block false)
    (is_new : has_hash block.hash db.blocks ≡ false) (p : StoredBlock)
    (parent : find_block block.parent db.blocks ≡ some p)
    (higher : block.height ≡ suc p.height) where
  abbrev new_best : StoredBlock
  new_best = record { dbid = id_for db; block = block }
