-- ===== src/Storage/Insert/Checked.antt =====
-- What it means that the check of `insertBlock` (storage_block.go) has passed, whatever statements
-- fail.
use x_b10cslashbademeister.Common.{
  ◌+◌, ◌%◌, ◌^◌, ◌≡◌, refl, sym, ap, ◌∙◌, Bool, true, false, Bool-cases, inl, inr, Option, none,
  some, List, [], ◌∷◌, map, head?, In, arith, ◌==◌, filter-In, take-In,
}
use x_b10cslashbademeister.Types.{Hash32, zero_hash, hash_eq, hash_eq_iff, Block, StoredBlock}
use x_b10cslashbademeister.Errors.{Result, ok, err, panic, out_of_fuel}
use x_b10cslashbademeister.Storage.Database.{
  Database, BlockRow, Exec, lift, ◌>>=◌, statement, Query, format_query,
}
use x_b10cslashbademeister.Storage.Database.Runs.{IsScan}
use x_b10cslashbademeister.Storage.Blocks.{
  to_stored_block, later_block, query_blocks, query_block, block_by_hash, best_block_now,
}
use x_b10cslashbademeister.Storage.Blocks.Latest.{
  Latest, no_best, best, sorted_best, head-take, sorted_best-Latest,
}
use x_b10cslashbademeister.Storage.Insert.{check_height, check_parent}
use x_b10cslashbademeister.Storage.Insert.Anchored.{NoneBest, Rests, on_zero, first, above}

ok_of : {A : Type 0} {a b : A} → ok a ≡ ok b → a ≡ b
ok_of e = ground (arith, e)

with_faults : List Bool → Database → Database
with_faults fs db = record db { engine = record db.engine { faults = fs } }

-- A query that works returns the first row that the SELECT yields.
query_go :
    (q : Query BlockRow) (fs : List Bool) (db : Database) (b : Option StoredBlock)
    → (query_block q (with_faults fs db)).0 ≡ ok b
    → head? (map to_stored_block (format_query q (db.engine.scan_blocks db.blocks))) ≡ b
unfolding query_block query_blocks statement with_faults
query_go q [] db b e = ok_of e
query_go q (true ∷ fs) db b e = absurd (cc)
query_go q (false ∷ fs) db b e = ok_of e

query_block-head :
    (q : Query BlockRow) (db : Database) (b : Option StoredBlock)
    → (query_block q db).0 ≡ ok b
    → head? (map to_stored_block (format_query q (db.engine.scan_blocks db.blocks))) ≡ b
unfolding with_faults
query_block-head q db b e = query_go q db.engine.faults db b e

none_of-Latest :
    (rows : List BlockRow) (b : Option StoredBlock) → Latest rows b → b ≡ none → NoneBest rows
none_of-Latest rows b (no_best f) e = f
none_of-Latest rows b (best r i t l) e = absurd (cc)

abbrev best_query : Query BlockRow
best_query = record { condition = λ r. r.is_best; order = some later_block; limit = 1 }

abbrev hash_query : Hash32 → Query BlockRow
hash_query h = record { condition = λ r. hash_eq r.hash h; order = none; limit = 1 }

-- Where BestBlockNow has found none, no row is marked best.
pub best_block_now-NoneBest :
    (db : Database)
    → IsScan db.engine.scan_blocks
    → (best_block_now db).0 ≡ ok none
    → NoneBest db.blocks
unfolding best_block_now format_query sorted_best
best_block_now-NoneBest db fair e =
    none_of-Latest db.blocks _ (sorted_best-Latest db fair)
      (sym (head-take (sorted_best db)) ∙ query_block-head best_query db none e)

first_row :
    (rows : List BlockRow) (p : StoredBlock)
    → head? (map to_stored_block rows) ≡ some p
    → (r : BlockRow) × In r rows × (to_stored_block r ≡ p)
first_row [] p e = absurd (cc)
first_row (r ∷ rows) p e = (r, inl refl, ground (arith, e))

-- A block that BlockByHash has found is a row with the hash.
block_by_hash-In :
    (h : Hash32) (db : Database) (p : StoredBlock)
    → IsScan db.engine.scan_blocks
    → (block_by_hash h db).0 ≡ ok (some p)
    → (r : BlockRow) × In r db.blocks × (r.hash ≡ h) × (to_stored_block r ≡ p)
unfolding block_by_hash format_query
block_by_hash-In h db p fair e =
    let (r, i, f) = first_row _ p (query_block-head (hash_query h) db (some p) e) in
    let found = filter-In (λ r. hash_eq r.hash h) r _ (take-In 1 r _ i) in
    (r, fair.visited r db.blocks found.0, (hash_eq_iff r.hash h).0 found.1, f)

result_of-bind :
    {A B : Type 0} (r : Result A) (f : A → Exec B) (db : Database) (b : B)
    → ((lift r >>= f) db).0 ≡ ok b
    → (a : A) × (r ≡ ok a) × ((f a db).0 ≡ ok b)
result_of-bind (ok a) f db b e = (a, refl, e)
result_of-bind (err x) f db b e = absurd (cc)
result_of-bind panic f db b e = absurd (cc)
result_of-bind out_of_fuel f db b e = absurd (cc)

check_height-above :
    (block : Block) (parent : Option StoredBlock) (db : Database)
    → (check_height block parent db).0 ≡ ok tt
    → (p : StoredBlock) × (parent ≡ some p) × (block.height ≡ (p.height + 1) % 2 ^ 32)
unfolding check_height
check_height-above block none db e = absurd (cc)
check_height-above block (some p) db e =
    elim (Bool-cases (block.height == (p.height + 1) % 2 ^ 32)) [
      | inl t ↦ (p, refl, ground (arith, t))
      | inr t ↦ absurd (ground (arith, t, e))
    ]

-- A block that passes the check rests on the rows, where the caller knows that no row is marked
-- best if it says that the block is the first.
pub check_parent-Rests :
    (block : Block) (first_block : Bool) (db : Database)
    → (first_block ≡ true → NoneBest db.blocks)
    → IsScan db.engine.scan_blocks
    → (check_parent block first_block db).0 ≡ ok tt
    → Rests db.blocks block.parent block.height
unfolding check_parent to_stored_block
check_parent-Rests block first_block db none_best fair e =
    elim (Bool-cases (hash_eq block.parent zero_hash)) [
      | inl zero ↦ on_zero ((hash_eq_iff block.parent zero_hash).0 zero)
      | inr other ↦ elim (Bool-cases first_block) [
        | inl is_first ↦ first (none_best is_first)
        | inr later ↦
            let checked : ((block_by_hash block.parent >>= check_height block) db).0 ≡ ok tt =
              rw (other, later) at e in
            let (parent, found, passed) =
              result_of-bind (block_by_hash block.parent db).0 (check_height block)
                (block_by_hash block.parent db).1 tt checked in
            let (p, same, height) = check_height-above block parent _ passed in
            let (r, i, hash, row) = block_by_hash-In block.parent db p fair (found ∙ ap ok same) in
            above r i hash (height ∙ ap (λ (b : StoredBlock). (b.height + 1) % 2 ^ 32) (sym row))
      ]
    ]
