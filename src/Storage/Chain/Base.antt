-- ===== src/Storage/Chain/Base.antt =====
-- `ReorgBase`: it ends, and what it returns.
use x_b10cslashbademeister.Common.{
  ℕ, suc, ◌+◌, ◌^◌, ◌<◌, ◌≡◌, refl, sym, ap, ◌∙◌, ◌⊎◌, inl, inr, true, false, Bool-cases, some,
  List, [], ◌∷◌, length, ltb, leb, ◌==◌, arith, In,
}
use x_b10cslashbademeister.Types.{Hash32, hash_eq, hash_eq_iff, Block, StoredBlock}
use x_b10cslashbademeister.Errors.{Result, ok}
use x_b10cslashbademeister.Storage.Database.{BlockRow, Database, Exec}
use x_b10cslashbademeister.Storage.Blocks.{to_stored_block}
use x_b10cslashbademeister.Storage.Blocks.Lookup.{
  find_block, find_block-row, block_by_hash_lem, In-find_block,
}
use x_b10cslashbademeister.Storage.Chain.{
  ancestor_step, common_ancestor_from, scan_heights, reorg_base, common_ancestor, pairs,
}
use x_b10cslashbademeister.Storage.Chain.Linked.{IsStored, found-IsStored, HasChains}
use x_b10cslashbademeister.Storage.Chain.Ancestor.{Meets, Unrooted, common_ancestor-total}
use x_b10cslashbademeister.Storage.Chain.Heights.{
  found_at, In-found_at, above-length, Top, unmarked, marked, Scan, scan_heights-Scan,
}

same_of_few :
    (bs : List StoredBlock) (a b : StoredBlock) → length bs < 2 → In a bs → In b bs → a ≡ b
same_of_few [] a b lt i j = absurd i
same_of_few (x ∷ []) a b lt (inl e) (inl f) = e ∙ sym f
same_of_few (x ∷ []) a b lt (inl e) (inr j) = absurd j
same_of_few (x ∷ []) a b lt (inr i) j = absurd i
same_of_few (x ∷ y ∷ bs) a b lt i j = absurd (omega arith)

ancestor_step_self :
    (again : StoredBlock → StoredBlock → Exec StoredBlock) (s : StoredBlock) (db : Database)
    → ancestor_step again s s db ≡ (ok s, db)
unfolding ancestor_step
ancestor_step_self again s db =
    let same : hash_eq s.hash s.hash ≡ true = (hash_eq_iff s.hash s.hash).1 refl in
    let level : (s.height == s.height) ≡ true = ground arith in rw (level, same) refl

common_ancestor_self : (db : Database) (s : StoredBlock) → common_ancestor s s db ≡ (ok s, db)
unfolding common_ancestor common_ancestor_from
common_ancestor_self db s =
    let level : ltb s.height s.height ≡ false = ground arith in
    rw level (ancestor_step_self (common_ancestor_from (s.height + s.height + pairs db)) s db)

-- The scan of `ReorgBase` from the block on, and its answer: a stored common ancestor of the block
-- and of the best block that the scan has seen, or the error that names a parent which is not
-- stored. Where the height of the block has no other block, the answer is the block.
pub record Based (db : Database) (s : StoredBlock) (out : Result StoredBlock × Database)
    : Type 0 where
  pub last : StoredBlock
  pub scan : Scan db s.height s last
  pub meets : Meets db s last out ⊎ Unrooted db out
  pub regular : length (found_at db s.height) < 2 → out ≡ (ok s, db)

module _ (db : Database) (chains : HasChains db) where
  -- The last best block of the scan is stored.
  Top-IsStored :
      (h : Hash32) (k stop : ℕ) (s last : StoredBlock)
      → find_block h db.blocks ≡ some s
      → Top db k stop s last
      → IsStored db.blocks last
  Top-IsStored h k stop s last e (unmarked q none_marked) = rw q (found-IsStored h s e)
  Top-IsStored h k stop s last e (marked r i q t low high highest) =
      rw q (found-IsStored r.hash (to_stored_block r) (In-find_block db.blocks r chains.unique i))

  Scan-regular :
      (h : Hash32) (s last : StoredBlock)
      → find_block h db.blocks ≡ some s
      → Scan db s.height s last
      → length (found_at db s.height) < 2
      → last ≡ s
  unfolding to_stored_block
  Scan-regular h s last e scan few = ends scan.top
    where
      at_start : scan.end ≡ s.height
      at_start = elim (Bool-cases (leb scan.end s.height)) [
        | inl low ↦ ground (arith, low, scan.from_start)
        | inr high ↦
            absurd (omega (arith, few, scan.crowded s.height (omega arith) (ground (arith, high))))
      ]

      here : In s (found_at db s.height)
      here =
          let (r, i, _, q) = find_block-row h db.blocks e in
          rw (← q) (In-found_at db (to_stored_block r).height r chains.sound i refl)

      ends : Top db s.height (suc scan.end) s last → last ≡ s
      ends (unmarked q none_marked) = q
      ends (marked r i q t low high highest) =
          q
          ∙ same_of_few (found_at db s.height) (to_stored_block r) s few
              (In-found_at db s.height r chains.sound i (ground (arith, at_start, low, high))) here

  reorg_base-scan :
      (block : Block) (s last : StoredBlock)
      → block.is_best ≡ true
      → find_block block.hash db.blocks ≡ some s
      → scan_heights (suc (length db.blocks)) block.height s db ≡ (ok last, db)
      → reorg_base block db ≡ common_ancestor s last db
  unfolding reorg_base
  reorg_base-scan block s last best e q =
      rw (best, block_by_hash_lem block.hash db chains.sound chains.unique, e, q) refl

  -- On chains with heights below the largest of uint32, and where no statement fails: ReorgBase of
  -- a block that is stored and marked best ends. Its scan stops at the first height from the block
  -- on with fewer than two blocks, and has found a block that is marked best such that no other
  -- of these is higher, or none but the block itself; the answer is a stored common ancestor of
  -- the block and of that one, or the error that names a parent which is not stored. It is the
  -- block itself where no other block is stored on its height.
  pub reorg_base-Based :
      (block : Block) (s : StoredBlock)
      → ((r : BlockRow) → In r db.blocks → suc r.height < 2 ^ 32)
      → block.is_best ≡ true
      → find_block block.hash db.blocks ≡ some s
      → s.height ≡ block.height
      → Based db s (reorg_base block db)
  reorg_base-Based block s low best e level =
      let (last, scan, q) =
        scan_heights-Scan db chains.sound low (suc (length db.blocks)) s.height s
          (omega (arith, above-length s.height db.blocks)) in
      let run : reorg_base block db ≡ common_ancestor s last db =
        reorg_base-scan block s last best e (rw⁻¹ level q) in
      record {
        last = last;
        scan = scan;
        meets = rw run (
            common_ancestor-total db chains s last (found-IsStored block.hash s e)
              (Top-IsStored block.hash s.height (suc scan.end) s last e scan.top));
        regular = λ few.
            run
            ∙ ap (λ (b : StoredBlock). common_ancestor s b db)
                (Scan-regular block.hash s last e scan few)
            ∙ common_ancestor_self db s;
      }
