-- ===== src/Tests/Chain.antt =====
-- The table of the scenario when its last block has been stored and the reorg is about to be
-- applied, and the theorems on chains at it.
use x_b10cslashbademeister.Common.{
  ℕ, suc, ◌<◌, ◌^◌, arith, In, ◌≡◌, ◌⊎◌, refl, Bool, true, false, Option, none, some, List, [], ◌∷◌,
  filter,
}
use x_b10cslashbademeister.Types.{hash_eq, StoredBlock}
use x_b10cslashbademeister.Storage.Database.{Database, TransactionRow, BlockRow, LinkRow}
use x_b10cslashbademeister.Storage.Database.Runs.{IsScan, IsSound}
use x_b10cslashbademeister.Storage.Blocks.{to_stored_block}
use x_b10cslashbademeister.Storage.Blocks.Lookup.{UniqueHashes, find_block}
use x_b10cslashbademeister.Storage.Chain.{common_ancestor, reorg_base}
use x_b10cslashbademeister.Storage.Chain.Linked.{Ancestor, direct, up, IsStored, HasChains}
use x_b10cslashbademeister.Storage.Chain.Ancestor.{Meets, Unrooted, common_ancestor-total}
use x_b10cslashbademeister.Storage.Chain.Closest.{Closest, common_ancestor-Closest}
use x_b10cslashbademeister.Storage.Chain.Base.{Based, reorg_base-Based}
use x_b10cslashbademeister.Storage.Insert.{update_best_block}
use x_b10cslashbademeister.Storage.Insert.Best.{Reassigned, update_best_block-Reassigned}
use x_b10cslashbademeister.Tests.Checks.{is_chain, is_chain-UniqueHashes, is_chain-IsLinked}
use x_b10cslashbademeister.Tests.Scenario.{hash_of, in_order, block_at}

abbrev pub row : ℕ → ℕ → ℕ → ℕ → ℕ → Bool → BlockRow
row id hash parent height sec best = record {
  id = id;
  hash = hash_of hash;
  parent = hash_of parent;
  first_seen = sec;
  height = height;
  is_best = best;
}

abbrev pub tx_row : ℕ → ℕ → Option ℕ → TransactionRow
tx_row id sec removed = record {
  id = id;
  txid = hash_of id;
  first_seen = sec;
  last_removed = removed;
  fee = 1;
  weight = 100;
}

abbrev link : ℕ → ℕ → ℕ → ℕ → LinkRow
link rowid tx block index = record {
  rowid = rowid;
  transaction_id = tx;
  block_id = block;
  block_index = index;
}

abbrev pub reorg_rows : List BlockRow
reorg_rows =
    row 1 101 0 0 100 true
    ∷ row 2 102 101 1 200 true
    ∷ row 3 103 102 2 300 true
    ∷ row 4 111 101 1 400 false
    ∷ row 5 112 111 2 500 true
    ∷ []

abbrev pub reorg_db : Database
reorg_db = record {
  transactions =
      tx_row 1 10 (some 100)
      ∷ tx_row 2 20 (some 200)
      ∷ tx_row 3 30 (some 300)
      ∷ tx_row 4 40 none
      ∷ [];
  blocks = reorg_rows;
  transaction_blocks =
      link 1 1 1 0 ∷ link 2 2 2 0 ∷ link 3 3 3 0 ∷ link 4 2 4 0 ∷ link 5 4 5 1 ∷ [];
  last_rowid = 5;
  engine = in_order;
}

id-IsScan : {A : Type 0} → IsScan {A = A} (λ rows. rows)
id-IsScan = record { visits = λ x rows i. i; visited = λ x rows i. i; counts = λ rows. refl }

pub in_order-IsSound : IsSound in_order
in_order-IsSound = record {
  no_faults = refl;
  transactions = id-IsScan;
  blocks = id-IsScan;
  links = id-IsScan;
}

pub reorg-UniqueHashes : UniqueHashes reorg_rows
unfolding is_chain hash_eq
reorg-UniqueHashes = is_chain-UniqueHashes reorg_rows refl

pub reorg-HasChains : HasChains reorg_db
unfolding is_chain hash_eq
reorg-HasChains = record {
  sound = in_order-IsSound;
  unique = reorg-UniqueHashes;
  linked = is_chain-IsLinked reorg_rows refl;
}

abbrev pub old_tip : StoredBlock
old_tip = record { dbid = 3; block = block_at 103 102 2 300 true (3 ∷ []) }

abbrev pub new_tip : StoredBlock
new_tip = record { dbid = 5; block = block_at 112 111 2 500 true (4 ∷ []) }

stored :
    (b : StoredBlock) (r : BlockRow)
    → find_block b.hash reorg_rows ≡ some (to_stored_block r)
    → r.height ≡ b.height
    → r.parent ≡ b.parent
    → IsStored reorg_rows b
unfolding to_stored_block
stored b r e h p = record { row = to_stored_block r; found = e; same_height = h; same_parent = p }

pub old_tip-IsStored : IsStored reorg_rows old_tip
unfolding find_block hash_eq filter
old_tip-IsStored = stored old_tip (row 3 103 102 2 300 true) refl refl refl

pub new_tip-IsStored : IsStored reorg_rows new_tip
unfolding find_block hash_eq filter
new_tip-IsStored = stored new_tip (row 5 112 111 2 500 true) refl refl refl

pub old_tip-Ancestor : Ancestor reorg_rows (hash_of 101) old_tip
unfolding find_block hash_eq filter to_stored_block
old_tip-Ancestor = up refl (direct refl)

pub new_tip-Ancestor : Ancestor reorg_rows (hash_of 101) new_tip
unfolding find_block hash_eq filter to_stored_block
new_tip-Ancestor = up refl (direct refl)

pub base-found :
    find_block (hash_of 101) reorg_rows ≡ some (to_stored_block (row 1 101 0 0 100 true))
unfolding find_block hash_eq filter
base-found = refl

common_ancestor-total_example :
    Meets reorg_db old_tip new_tip (common_ancestor old_tip new_tip reorg_db)
    ⊎ Unrooted reorg_db (common_ancestor old_tip new_tip reorg_db)
common_ancestor-total_example =
    common_ancestor-total reorg_db reorg-HasChains old_tip new_tip old_tip-IsStored new_tip-IsStored

common_ancestor-Closest_example :
    Closest reorg_db (hash_of 101) old_tip new_tip (common_ancestor old_tip new_tip reorg_db)
common_ancestor-Closest_example =
    common_ancestor-Closest reorg_db reorg-HasChains (hash_of 101)
      (to_stored_block (row 1 101 0 0 100 true)) base-found old_tip new_tip old_tip-IsStored
      new_tip-IsStored old_tip-Ancestor new_tip-Ancestor

update_best_block-Reassigned_example :
    Reassigned reorg_db
      (hash_of 101)
      old_tip
      new_tip
      (update_best_block (some old_tip) new_tip reorg_db)
update_best_block-Reassigned_example =
    update_best_block-Reassigned reorg_db (hash_of 101) (to_stored_block (row 1 101 0 0 100 true))
      old_tip new_tip reorg-HasChains base-found old_tip-IsStored new_tip-IsStored old_tip-Ancestor
      new_tip-Ancestor

rows-below : (r : BlockRow) → In r reorg_rows → suc r.height < 2 ^ 32
rows-below r i = ground (arith, i)

-- The block with a block of the other branch beside it.
forked : StoredBlock
forked = record { dbid = 2; block = block_at 102 101 1 200 true [] }

reorg_base-Based_example :
    Based reorg_db (to_stored_block (row 2 102 101 1 200 true)) (reorg_base forked.block reorg_db)
unfolding find_block hash_eq filter to_stored_block forked
reorg_base-Based_example =
    reorg_base-Based reorg_db reorg-HasChains forked.block
      (to_stored_block (row 2 102 101 1 200 true)) rows-below refl refl refl
