-- ===== src/Storage/Insert/Failures.antt =====
-- How `InsertBlock` refuses a block without its parent.
use x_b10cslashbademeister.Common.{◌≡◌, ◌≢◌, refl, none, some}
use x_b10cslashbademeister.Types.{zero_hash, Block, StoredBlock}
use x_b10cslashbademeister.Errors.{ok, err, wrap, in_insert_block, parent_block_nil}
use x_b10cslashbademeister.Storage.Database.{Database}
use x_b10cslashbademeister.Storage.Transactions.Ids.{UniqueTxids, transaction_dbids-stored}
use x_b10cslashbademeister.Storage.Blocks.{best_block_now}
use x_b10cslashbademeister.Storage.Blocks.Lookup.{find_block}
use x_b10cslashbademeister.Storage.Chain.Linked.{HasChains}
use x_b10cslashbademeister.Storage.Insert.{insert_with_best, insert_with_dbids, insert_block}
use x_b10cslashbademeister.Storage.Insert.Chains.{insert_block_row-unknown_parent}

-- Where a best block is known and no statement fails, on chains: a block with a parent that is not
-- stored makes InsertBlock return an error, and nothing changes.
pub insert_block-unknown_parent :
    (block : Block) (db : Database) (last_best : StoredBlock)
    → HasChains db
    → UniqueTxids db.transactions
    → best_block_now db ≡ (ok (some last_best), db)
    → block.parent ≢ zero_hash
    → find_block block.parent db.blocks ≡ none
    → insert_block block db ≡ (err (wrap in_insert_block parent_block_nil), db)
unfolding insert_block insert_with_dbids insert_with_best
insert_block-unknown_parent block db last_best chains unique current inner absent =
    rw
      (
        transaction_dbids-stored block.tx_ids db chains.sound unique,
        current,
        insert_block_row-unknown_parent block db chains inner absent,
      )
      refl
