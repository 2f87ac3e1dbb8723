-- ===== src/Storage/Insert/Preserved/Blocks.antt =====
-- The queries, the walks and the insertion of blocks keep what reading and writing keep, whatever
-- statements fail.
use x_b10cslashbademeister.Common.{
  ◌≡◌, refl, ap, ◌∙◌, ℕ, suc, ◌+◌, ◌%◌, ◌^◌, inl, inr, Bool, true, false, Bool-cases, Option, none,
  some, List, [], ◌∷◌, length, if◌then◌else◌, not, ◌&&◌, ◌==◌, ℤ,
}
use x_b10cslashbademeister.Types.{Time, zero_hash, hash_eq, Block, StoredBlock, Transaction}
use x_b10cslashbademeister.Errors.{
  Result, ok, err, panic, out_of_fuel, inserting_block, in_insert_block,
  in_insert_transaction_block,
}
use x_b10cslashbademeister.Storage.Database.{
  Database, LinkRow, Exec, pure, ◌>>◌, wrap_exec, statement,
}
use x_b10cslashbademeister.Storage.Transactions.{
  has_txid, transaction_dbids, upsert_transaction, upsert_transactions,
}
use x_b10cslashbademeister.Storage.Blocks.{block_by_hash, best_block_now}
use x_b10cslashbademeister.Storage.Chain.{common_ancestor, pairs, walk_blocks}
use x_b10cslashbademeister.Storage.Insert.Preserved.{
  IsPreserved, stays, Preserves, Upserts, bind-Preserves, statement-Preserves, bind_at,
  statement_at,
}
use x_b10cslashbademeister.Storage.Database.Runs.{IsScan}
use x_b10cslashbademeister.Storage.Insert.Anchored.{NoneBest}
use x_b10cslashbademeister.Storage.Insert.Checked.{best_block_now-NoneBest, check_parent-Rests}
use x_b10cslashbademeister.Storage.Insert.{
  update_last_removed, update_best_block, upsert_block, check_height, check_parent,
  insert_block_row, insert_links, new_links, add_links, insert_transaction_block, insert_with_best,
  insert_with_dbids, insert_block,
}
use x_b10cslashbademeister.Storage.Insert.Preserved.Walks.{
  best_block_now-Preserves, block_by_hash-Preserves, common_ancestor_from-Preserves,
  walk_to-Preserves,
}

module _ (R : Database → Database → Type 0) (kept : IsPreserved R) where
  update_last_removed-Preserves :
      (b : StoredBlock) (t : Option Time) → Preserves R (update_last_removed b t)
  unfolding update_last_removed
  update_last_removed-Preserves b t = statement-Preserves R kept _ λ db. kept.removal _ _ db

  walk_blocks-Preserves :
      (start : StoredBlock) (end : StoredBlock) (t : Option Time)
      → Preserves R (walk_blocks start (some end) (λ b s. update_last_removed b t) tt)
  unfolding walk_blocks
  walk_blocks-Preserves start end t = (λ db.
      walk_to-Preserves R kept (suc (start.height + suc (length db.blocks))) start end _ tt
        (λ b s. update_last_removed-Preserves b t) db)

  update_best_block-Preserves :
      (last : Option StoredBlock) (new_best : StoredBlock)
      → Preserves R (update_best_block last new_best)
  unfolding update_best_block common_ancestor
  update_best_block-Preserves none new_best =
      update_last_removed-Preserves new_best (some new_best.first_seen)
  update_best_block-Preserves (some last_best) new_best =
      bind-Preserves R kept (common_ancestor new_best last_best)
        (λ ancestor.
          walk_blocks last_best (some ancestor) (λ block s. update_last_removed block none) tt
          >> walk_blocks new_best (some ancestor)
              (λ block s. update_last_removed block (some new_best.first_seen)) tt)
        (λ db.
          common_ancestor_from-Preserves R kept
            (suc (new_best.height + last_best.height + pairs db)) new_best last_best db)
        λ ancestor.
          bind-Preserves R kept
            (walk_blocks last_best (some ancestor) (λ block s. update_last_removed block none) tt)
            (λ s.
              walk_blocks new_best (some ancestor)
                (λ block s. update_last_removed block (some new_best.first_seen)) tt)
            (walk_blocks-Preserves last_best ancestor none)
            λ s. walk_blocks-Preserves new_best ancestor (some new_best.first_seen)

  check_height-Preserves :
      (block : Block) (parent : Option StoredBlock) → Preserves R (check_height block parent)
  unfolding check_height
  check_height-Preserves block none db = stays R kept db
  check_height-Preserves block (some p) db =
      elim (Bool-cases (block.height == (p.height + 1) % 2 ^ 32)) [
        | inl e ↦ rw e (stays R kept db)
        | inr e ↦ rw e (stays R kept db)
      ]

  check_parent-Preserves :
      (block : Block) (first_block : Bool) → Preserves R (check_parent block first_block)
  unfolding check_parent
  check_parent-Preserves block first_block db =
      elim (Bool-cases (not (hash_eq block.parent zero_hash) && not first_block)) [
        | inl e ↦ rw e (
            bind-Preserves R kept (block_by_hash block.parent) (check_height block)
              (block_by_hash-Preserves R kept block.parent) (check_height-Preserves block) db)
        | inr e ↦ rw e (stays R kept db)
      ]

-- The table of blocks and the visits of its rows are the same after reading.
abbrev pub SameBlocks : Database → Database → Type 0
SameBlocks a b = (b.blocks ≡ a.blocks) × (b.engine.scan_blocks ≡ a.engine.scan_blocks)

pub upsert_transactions-SameBlocks :
    (txs : List Transaction) (db : Database) → SameBlocks db (upsert_transactions db txs)
unfolding upsert_transactions upsert_transaction
upsert_transactions-SameBlocks [] db = (refl, refl)
upsert_transactions-SameBlocks (tx ∷ txs) db =
    let rest = upsert_transactions-SameBlocks txs (upsert_transaction db tx) in
    elim (Bool-cases (has_txid tx.tx_id db.transactions)) [
      | inl e ↦ (rest.0 ∙ rw e refl, rest.1 ∙ rw e refl)
      | inr e ↦ (rest.0 ∙ rw e refl, rest.1 ∙ rw e refl)
    ]

SameBlocks-IsPreserved : IsPreserved SameBlocks
unfolding add_links
SameBlocks-IsPreserved = record {
  same = λ a b e f g h. (f, h);
  trans = λ a b c k l. (l.0 ∙ k.0, l.1 ∙ k.1);
  removal = λ ids value db. (refl, refl);
  links = λ links db. (refl, refl);
  values = λ txs db. upsert_transactions-SameBlocks txs db;
}

module _ (R : Database → Database → Type 0) (kept : IsPreserved R) where
  insert_block_row-Preserves :
      (block : Block) (first_block : Bool) (db : Database)
      → Upserts R block
      → (IsScan db.engine.scan_blocks → first_block ≡ true → NoneBest db.blocks)
      → R db (insert_block_row block first_block db).1
  unfolding insert_block_row
  insert_block_row-Preserves block first_block db upserts none_best =
      let same = check_parent-Preserves SameBlocks SameBlocks-IsPreserved block first_block db in
      bind_at R kept (check_parent block first_block)
        (λ u.
          wrap_exec inserting_block
            (statement λ db. let db' = upsert_block block db in (ok db'.last_rowid, db')))
        db (check_parent-Preserves R kept block first_block db)
        λ u passed.
          statement_at R kept (λ db. let db' = upsert_block block db in (ok db'.last_rowid, db'))
            (check_parent block first_block db).1
            λ fs. upserts _ λ fair.
              let fair' : IsScan db.engine.scan_blocks = rw (← same.1) fair in
              rw same.0 (check_parent-Rests block first_block db (none_best fair') fair' passed)

  insert_links-Preserves : (links : List LinkRow) → Preserves R (insert_links links)
  unfolding insert_links add_links
  insert_links-Preserves [] db = stays R kept db
  insert_links-Preserves (l ∷ links) db =
      statement-Preserves R kept (add_links (l ∷ links)) (kept.links (l ∷ links)) db

  insert_transaction_block-Preserves :
      (block_id : ℕ) (dbids : List ℤ) → Preserves R (insert_transaction_block block_id dbids)
  unfolding insert_transaction_block
  insert_transaction_block-Preserves block_id dbids db =
      insert_links-Preserves (new_links block_id dbids db) db

  is_none :
      (current_best : Option StoredBlock)
      → (elim current_best [ none ↦ true | some b ↦ false ]) ≡ true
      → current_best ≡ none
  is_none none e = refl
  is_none (some b) e = absurd (cc)

  if-Preserves :
      {A : Type 0} (c : Bool) (m n : Exec A)
      → Preserves R m
      → Preserves R n
      → Preserves R (if c then m else n)
  if-Preserves true m n k l = k
  if-Preserves false m n k l = l

  best_update-Preserves :
      (block : Block) (current_best : Option StoredBlock) (block_id : ℕ)
      → Preserves R (
          if block.is_best
          then update_best_block current_best (record { dbid = block_id; block = block })
          else pure tt)
  best_update-Preserves block current_best block_id =
      if-Preserves block.is_best
        (update_best_block current_best (record { dbid = block_id; block = block })) (pure tt)
        (update_best_block-Preserves R kept current_best
          (record { dbid = block_id; block = block }))
        (λ db. stays R kept db)

  insert_with_best-Preserves :
      (block : Block) (dbids : List ℤ) (best : Result (Option StoredBlock)) (db : Database)
      → Upserts R block
      → (IsScan db.engine.scan_blocks → best ≡ ok none → NoneBest db.blocks)
      → R db (insert_with_best block dbids best db).1
  unfolding insert_with_best
  insert_with_best-Preserves block dbids (err e) db upserts none_best = stays R kept db
  insert_with_best-Preserves block dbids panic db upserts none_best = stays R kept db
  insert_with_best-Preserves block dbids out_of_fuel db upserts none_best = stays R kept db
  insert_with_best-Preserves block dbids (ok current_best) db upserts none_best =
      let first : Bool = elim current_best [ none ↦ true | some b ↦ false ] in
      let link : ℕ → Exec (Unit {0}) = λ block_id.
        wrap_exec in_insert_transaction_block (insert_transaction_block block_id dbids) in
      let update : ℕ → Exec (Unit {0}) = λ block_id.
        if block.is_best
        then update_best_block current_best (record { dbid = block_id; block = block })
        else pure tt in
      bind_at R kept (wrap_exec in_insert_block (insert_block_row block first))
        (λ block_id. link block_id >> (update block_id >> pure block_id)) db
        (insert_block_row-Preserves block first db upserts
          λ fair e. none_best fair (ap ok (is_none current_best e)))
        (λ block_id inserted.
          bind-Preserves R kept (link block_id) (λ u. update block_id >> pure block_id)
            (insert_transaction_block-Preserves block_id dbids)
            (λ u.
              bind-Preserves R kept (update block_id) (λ v. pure block_id)
                (best_update-Preserves block current_best block_id) λ v db'. stays R kept db')
            (insert_block_row block first db).1)

  insert_with_dbids-Preserves :
      (block : Block) (dbids : Result (List ℤ))
      → Upserts R block
      → Preserves R (insert_with_dbids block dbids)
  unfolding insert_with_dbids
  insert_with_dbids-Preserves block (err e) upserts db = stays R kept db
  insert_with_dbids-Preserves block panic upserts db = stays R kept db
  insert_with_dbids-Preserves block out_of_fuel upserts db = stays R kept db
  insert_with_dbids-Preserves block (ok dbids) upserts db =
      let same = best_block_now-Preserves SameBlocks SameBlocks-IsPreserved db in
      kept.trans _ _ _ (best_block_now-Preserves R kept db) (
        insert_with_best-Preserves block dbids (best_block_now db).0 (best_block_now db).1 upserts
          λ fair e. rw same.0 (best_block_now-NoneBest db (rw (← same.1) fair) e))

  pub insert_block-Preserves : (block : Block) → Upserts R block → Preserves R (insert_block block)
  unfolding insert_block transaction_dbids
  insert_block-Preserves block upserts db =
      kept.trans _ _ _ (statement-Preserves R kept _ (λ db'. stays R kept db') db) (
        insert_with_dbids-Preserves block (transaction_dbids block.tx_ids db).0 upserts
          (transaction_dbids block.tx_ids db).1)
