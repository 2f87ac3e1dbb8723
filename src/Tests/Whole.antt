-- ===== src/Tests/Whole.antt =====
-- The theorems on InsertBlock as a whole, at the table of the scenario.
use x_b10cslashbademeister.Common.{◌≡◌, refl, true, some, filter, sort_by, insert_by, arith}
use x_b10cslashbademeister.Types.{StoredBlock}
use x_b10cslashbademeister.Errors.{ok, err, wrap, in_insert_block, parent_block_nil}
use x_b10cslashbademeister.Storage.Database.{statement, format_query}
use x_b10cslashbademeister.Storage.Transactions.Ids.{UniqueTxids}
use x_b10cslashbademeister.Storage.Blocks.{
  to_stored_block, query_blocks, query_block, later_block, best_block_now,
}
use x_b10cslashbademeister.Storage.Insert.{insert_block}
use x_b10cslashbademeister.Storage.Insert.Failures.{insert_block-unknown_parent}
use x_b10cslashbademeister.Tests.Chain.{row, reorg_db, reorg-HasChains}
use x_b10cslashbademeister.Tests.Insert.{orphan, orphan-inner, orphan-unknown}

reorg-UniqueTxids : UniqueTxids reorg_db.transactions
reorg-UniqueTxids = record { unique = λ r s i j e. ground arith }

abbrev tip : StoredBlock
tip = to_stored_block (row 5 112 111 2 500 true)

current : best_block_now reorg_db ≡ (ok (some tip), reorg_db)
unfolding best_block_now query_block query_blocks format_query statement later_block sort_by
    insert_by filter to_stored_block
current = refl

insert_block-unknown_parent_example :
    insert_block orphan reorg_db ≡ (err (wrap in_insert_block parent_block_nil), reorg_db)
insert_block-unknown_parent_example =
    insert_block-unknown_parent orphan reorg_db tip reorg-HasChains reorg-UniqueTxids current
      orphan-inner orphan-unknown
