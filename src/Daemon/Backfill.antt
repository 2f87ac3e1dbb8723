-- ===== src/Daemon/Backfill.antt =====
-- `findMissingBlocks`: it ends within its limit, with a chain above a stored block.
use x_b10cslashbademeister.Common.{
  ℕ, zero, suc, ◌+◌, ◌≤◌, ◌≡◌, sym, ◌∙◌, ◌⊎◌, inl, inr, Bool-cases, Option-cases, none, some, List,
  [], ◌∷◌, length, ltb, arith,
}
use x_b10cslashbademeister.Types.{Hash32, Block, StoredBlock}
use x_b10cslashbademeister.Errors.{Result, ok, err, panic, Error, max_backfill, rpc_failure}
use x_b10cslashbademeister.Wire.{Btcd, MsgBlock}
use x_b10cslashbademeister.Wire.Blocks.{new_block-cases}
use x_b10cslashbademeister.Rpc.{BitcoinRpcClient}
use x_b10cslashbademeister.Storage.Database.{Database}
use x_b10cslashbademeister.Storage.Database.Runs.{IsSound}
use x_b10cslashbademeister.Storage.Blocks.Lookup.{UniqueHashes, find_block, block_by_hash_lem}
use x_b10cslashbademeister.Daemon.{missing_blocks_from, find_missing_blocks}

-- Blocks from a stored parent up to a hash, none of them stored, each the parent of the next.
pub data IsBackfill (db : Database) (tip : Hash32) : Hash32 → List Block → Type 0 where
  complete : IsBackfill db tip tip []
  above :
      {h : Hash32} {block : Block} {blocks : List Block}
      → block.parent ≡ h
      → find_block block.hash db.blocks ≡ none
      → IsBackfill db tip block.hash blocks
      → IsBackfill db tip h (block ∷ blocks)

-- How the search ends: with a chain above a stored block, of the length of the limit at most, with
-- an error, or with a panic of the parser.
abbrev pub Found : Database → ℕ → Hash32 → Result (List Block) × Database → Type 0
Found db max tip out =
    ((blocks : List Block) × (out ≡ (ok blocks, db))
      × (length blocks ≤ max)
      × ((base : Hash32) × (x : StoredBlock) × (find_block base db.blocks ≡ some x)
          × IsBackfill db tip base blocks))
    ⊎ ((e : Error) × (out ≡ (err e, db)))
    ⊎ (out ≡ (panic, db))

-- A node answers a hash with a block of that hash.
abbrev pub IsHonest : Btcd → BitcoinRpcClient → Type 0
IsHonest b rpc = (h : Hash32) (w : MsgBlock) → rpc.get_block h ≡ some w → b.block_hash w.header ≡ h

module _ (b : Btcd) (rpc : BitcoinRpcClient) (honest : IsHonest b rpc) (db : Database)
    (sound : IsSound db.engine) (unique : UniqueHashes db.blocks) (max : ℕ) (tip : Hash32) where
  missing_blocks_from-Found :
      (fuel : ℕ) (current : Hash32) (res : List Block)
      → IsBackfill db tip current res
      → length res ≤ max + 1
      → max + 2 ≤ fuel + length res
      → Found db max tip (missing_blocks_from b rpc fuel max current res db)
  unfolding missing_blocks_from
  missing_blocks_from-Found zero current res chain short enough = absurd (omega arith)
  missing_blocks_from-Found (suc fuel) current res chain short enough =
      elim (Bool-cases (ltb max (length res))) [
        | inl e ↦ inr (inl (max_backfill, ground (arith, e)))
        | inr e ↦
            let look = block_by_hash_lem current db sound unique in
            elim (Option-cases (find_block current db.blocks)) [
              | inr (x, q) ↦
                  inl (res, ground (arith, e, look, q), ground arith, (current, x, q, chain))
              | inl q ↦ elim (Option-cases (rpc.get_block current)) [
                | inl g ↦ inr (inl (rpc_failure, ground (arith, e, look, q, g)))
                | inr (w, g) ↦ elim (new_block-cases b w.header.timestamp w) [
                  | inr (inr p) ↦ inr (inr (ground (arith, e, look, q, g, p)))
                  | inr (inl (f, p)) ↦ inr (inl (f, ground (arith, e, look, q, g, p)))
                  | inl (block, p, hash, parent) ↦
                      let same : current ≡ block.hash = sym (hash ∙ honest current w g) in
                      let chain' : IsBackfill db tip w.header.prev_block (block ∷ res) =
                        above parent (rw (← same) q) (rw (← same) chain) in
                      elim (missing_blocks_from-Found fuel w.header.prev_block (block ∷ res) chain'
                        (ground arith) (omega arith)) [
                          | inl (blocks, run, rest, based) ↦
                              inl (blocks, ground (arith, e, look, q, g, p, run), rest, based)
                          | inr (inl (f, run)) ↦
                              inr (inl (f, ground (arith, e, look, q, g, p, run)))
                          | inr (inr run) ↦ inr (inr (ground (arith, e, look, q, g, p, run)))
                        ]
                ]
              ]
            ]
      ]

-- On a node that answers a hash with a block of that hash, and a driver that fails no statement,
-- `findMissingBlocks` ends and changes nothing. If it returns blocks, they are `max` at most and
-- lead from a stored block, parent by parent, to the node's best block, none of them stored.
pub find_missing_blocks-Found :
    (b : Btcd) (rpc : BitcoinRpcClient) (db : Database) (max : ℕ) (tip : Hash32)
    → IsHonest b rpc
    → IsSound db.engine
    → UniqueHashes db.blocks
    → rpc.get_best_block_hash ≡ some tip
    → Found db max tip (find_missing_blocks b (some rpc) max db)
unfolding find_missing_blocks
find_missing_blocks-Found b rpc db max tip honest sound unique best = rw best (
    missing_blocks_from-Found b rpc honest db sound unique max tip (max + 2) tip [] complete
      (omega arith) (omega arith))
