-- ===== src/Storage/Insert/Chains.antt =====
-- `insertBlock` keeps the table of blocks a set of chains.
use x_b10cslashbademeister.Common.{
  suc, ◌+◌, ◌%◌, ◌^◌, ◌<◌, ◌≡◌, ◌≢◌, refl, ◌∙◌, ◌⊎◌, inl, inr, Bool, true, false, none, some,
  Bool-cases, Option-cases, List, [], arith, ◌==◌,
}
use x_b10cslashbademeister.Types.{Hash32, zero_hash, hash_eq, hash_eq_iff, Block, StoredBlock}
use x_b10cslashbademeister.Errors.{ok, err, Error, parent_block_nil, invalid_block_height}
use x_b10cslashbademeister.Storage.Database.{Database, BlockRow}
use x_b10cslashbademeister.Storage.Database.Runs.{statement_lem}
use x_b10cslashbademeister.Storage.Blocks.{block_by_hash}
use x_b10cslashbademeister.Storage.Blocks.Lookup.{find_block, find_block-nil, block_by_hash_lem}
use x_b10cslashbademeister.Storage.Chain.Linked.{HasChains}
use x_b10cslashbademeister.Storage.Insert.{
  has_hash, block_row, upsert_block, check_height, check_parent, insert_block_row,
}
use x_b10cslashbademeister.Storage.Insert.Rows.{
  append-IsLinked, append-UniqueHashes, lower-IsLinked, lower-UniqueHashes,
}

-- A block that insertBlock may be given: no hash is zero, its height is a uint32 that has not
-- wrapped around above a stored parent, no stored block and not the block itself names it as its
-- parent, and the first block meets an empty table.
pub record IsInsertable (rows : List BlockRow) (block : Block) (first_block : Bool) : Type 0 where
  pub no_zero : find_block zero_hash rows ≡ none
  pub small : block.height < 2 ^ 32
  pub not_wrapped : (p : StoredBlock) → find_block block.parent rows ≡ some p → 0 < block.height
  pub own : block.parent ≢ block.hash
  pub awaited : (h : Hash32) (c : StoredBlock) → find_block h rows ≡ some c → c.parent ≢ block.hash
  pub first_only : first_block ≡ true → rows ≡ []

module _ (block : Block) (first_block : Bool) (db : Database) (chains : HasChains db)
    (fits : IsInsertable db.blocks block first_block) where
  lookup : block_by_hash block.parent db ≡ (ok (find_block block.parent db.blocks), db)
  lookup = block_by_hash_lem block.parent db chains.sound chains.unique

  -- The check fails and changes nothing, or the block is one higher than its stored parent.
  check_parent-cases :
      ((e : Error) × (check_parent block first_block db ≡ (err e, db)))
      ⊎ ((check_parent block first_block db ≡ (ok tt, db))
          × ((p : StoredBlock)
              → find_block block.parent db.blocks ≡ some p
              → block.height ≡ suc p.height))
  unfolding check_parent check_height
  check_parent-cases = elim (Bool-cases (hash_eq block.parent zero_hash)) [
    | inl zero_parent ↦ inr (
      rw zero_parent refl,
      λ p e.
          absurd
            (ground (arith, (hash_eq_iff block.parent zero_hash).0 zero_parent, fits.no_zero, e)),
    )
    | inr other ↦ elim (Bool-cases first_block) [
      | inl first ↦ inr (
        rw (other, first) refl,
        λ p e. absurd (ground (arith, fits.first_only first, find_block-nil block.parent, e)),
      )
      | inr later ↦ elim (Option-cases (find_block block.parent db.blocks)) [
        | inl e ↦ inl (parent_block_nil, ground (arith, lookup, e, other, later))
        | inr (p, e) ↦ elim (Bool-cases (block.height == (p.height + 1) % 2 ^ 32)) [
          | inl fit ↦ inr (
            ground (arith, lookup, e, other, later, fit),
            λ p' e'.
                let same : p ≡ p' = ground (arith, e, e') in
                rw (← same) (
                  ground
                    (arith, fit, chains.linked.bounded block.parent p e, fits.not_wrapped p e)),
          )
          | inr unfit ↦ inl (
            invalid_block_height block.height block.hash,
            ground (arith, lookup, e, other, later, unfit),
          )
        ]
      ]
    ]
  ]

  upsert_block-HasChains :
      ((p : StoredBlock) → find_block block.parent db.blocks ≡ some p → block.height ≡ suc p.height)
      → HasChains (upsert_block block db)
  unfolding upsert_block block_row
  upsert_block-HasChains above = elim (Bool-cases (has_hash block.hash db.blocks)) [
    | inl old ↦
        rw (old, upsert_block)
          (record {
            sound = chains.sound;
            unique = lower-UniqueHashes block.hash block.first_seen.sec db.blocks chains.unique;
            linked = lower-IsLinked block.hash block.first_seen.sec db.blocks chains.linked;
          })
    | inr new ↦
        rw (new, upsert_block)
          (record {
            sound = chains.sound;
            unique = append-UniqueHashes db.blocks _ new chains.unique;
            linked =
                append-IsLinked db.blocks _ chains.linked fits.small fits.own above fits.awaited;
          })
  ]

  insert_block_row-cases :
      ((e : Error) × (insert_block_row block first_block db ≡ (err e, db)))
      ⊎ ((insert_block_row block first_block db
            ≡ (ok (upsert_block block db).last_rowid, upsert_block block db))
          × HasChains (upsert_block block db))
  unfolding insert_block_row
  insert_block_row-cases = elim check_parent-cases [
    | inl (e, refused) ↦ inl (e, rw refused)
    | inr (passed, above) ↦
        inr (rw (passed, statement_lem, chains.sound.no_faults), upsert_block-HasChains above)
  ]

  -- Whether it stores the block, lowers the time of a stored one or refuses, `insertBlock` leaves
  -- chains behind.
  pub insert_block_row-HasChains : HasChains (insert_block_row block first_block db).1
  insert_block_row-HasChains = elim insert_block_row-cases [
    | inl (e, refused) ↦ rw refused chains
    | inr (stored, after) ↦ rw stored after
  ]

module _ (block : Block) (db : Database) (chains : HasChains db)
    (inner : block.parent ≢ zero_hash) where
  inner-test : hash_eq block.parent zero_hash ≡ false
  inner-test = ground (arith, hash_eq_iff block.parent zero_hash)

  refused_by_check :
      (e : Error)
      → check_parent block false db ≡ (err e, db)
      → insert_block_row block false db ≡ (err e, db)
  unfolding insert_block_row
  refused_by_check e refused = rw refused

  check_parent-later :
      check_parent block false db ≡ check_height block (find_block block.parent db.blocks) db
  unfolding check_parent
  check_parent-later =
      ground (arith, inner-test, block_by_hash_lem block.parent db chains.sound chains.unique)

  -- A block with a parent that is not the first block is refused, and nothing changes, if its
  -- parent is not stored.
  pub insert_block_row-unknown_parent :
      find_block block.parent db.blocks ≡ none
      → insert_block_row block false db ≡ (err parent_block_nil, db)
  unfolding check_height
  insert_block_row-unknown_parent e =
      refused_by_check parent_block_nil (check_parent-later ∙ (rw e))
