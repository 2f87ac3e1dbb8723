-- ===== src/Tests/Insert.antt =====
-- The theorems on the methods of Storage that insert, at the table of the scenario.
use x_b10cslashbademeister.Common.{
  ℕ, ◌≡◌, ◌≢◌, refl, true, false, none, some, [], ◌∷◌, filter, arith,
}
use x_b10cslashbademeister.Types.{Hash32, zero_hash, hash_eq, hash_eq_iff, Block}
use x_b10cslashbademeister.Errors.{ok}
use x_b10cslashbademeister.Storage.Blocks.{to_stored_block}
use x_b10cslashbademeister.Storage.Blocks.Lookup.{find_block}
use x_b10cslashbademeister.Storage.Chain.Linked.{HasChains}
use x_b10cslashbademeister.Storage.Transactions.{insert_transactions}
use x_b10cslashbademeister.Storage.Transactions.Upsert.{
  earlier_of, earliest, first_seen_at, insert_transactions-first_seen,
}
use x_b10cslashbademeister.Storage.Insert.{insert_block_row}
use x_b10cslashbademeister.Storage.Insert.Chains.{IsInsertable, insert_block_row-HasChains}
use x_b10cslashbademeister.Tests.Checks.{no_child_of, no_child_of-awaited}
use x_b10cslashbademeister.Tests.Scenario.{hash_of, block_at, tx_at}
use x_b10cslashbademeister.Tests.Chain.{
  reorg_rows, reorg_db, row, in_order-IsSound, reorg-HasChains,
}

abbrev pub child : Block
child = block_at 113 112 3 600 true []

abbrev pub orphan : Block
orphan = block_at 120 119 4 600 true []

abbrev too_high : Block
too_high = block_at 113 112 7 600 true []

pub hashes_differ : (g h : Hash32) → hash_eq g h ≡ false → g ≢ h
hashes_differ g h e p = ground (arith, (hash_eq_iff g h).1 p)

pub child-IsInsertable : IsInsertable reorg_rows child false
unfolding find_block hash_eq filter no_child_of
child-IsInsertable = record {
  no_zero = refl;
  small = omega arith;
  not_wrapped = λ p e. omega arith;
  own = hashes_differ (hash_of 112) (hash_of 113) refl;
  awaited = no_child_of-awaited (hash_of 113) reorg_rows refl;
  first_only = λ e. cc;
}

insert_block_row-HasChains_example : HasChains (insert_block_row child false reorg_db).1
insert_block_row-HasChains_example =
    insert_block_row-HasChains child false reorg_db reorg-HasChains child-IsInsertable

pub orphan-inner : hash_of 119 ≢ zero_hash
unfolding hash_eq
orphan-inner = hashes_differ (hash_of 119) zero_hash refl

too_high-inner : hash_of 112 ≢ zero_hash
unfolding hash_eq
too_high-inner = hashes_differ (hash_of 112) zero_hash refl

pub orphan-unknown : find_block (hash_of 119) reorg_rows ≡ none
unfolding find_block hash_eq filter
orphan-unknown = refl

pub too_high-parent :
    find_block (hash_of 112) reorg_rows ≡ some (to_stored_block (row 5 112 111 2 500 true))
unfolding find_block hash_eq filter
too_high-parent = refl

insert_transactions-first_seen_example :
    (id : ℕ) × ((insert_transactions (tx_at 1 ∷ tx_at 7 ∷ []) reorg_db).0 ≡ ok id)
    × (first_seen_at (hash_of 7) (insert_transactions (tx_at 1 ∷ tx_at 7 ∷ []) reorg_db).1
        ≡ earlier_of
            (first_seen_at (hash_of 7) reorg_db)
            (earliest (hash_of 7) (tx_at 1 ∷ tx_at 7 ∷ [])))
insert_transactions-first_seen_example =
    insert_transactions-first_seen reorg_db in_order-IsSound (tx_at 1) (tx_at 7 ∷ []) (hash_of 7)
