-- ===== src/Storage/Chain.antt =====
-- The walks along the parents of blocks, of src/storage/storage_block.go: CommonAncestor,
-- ReorgBase and WalkBlocks. The code's recursion and loops have no bound of their own. The fuel of
-- CommonAncestor is above the sum of the two heights, which is enough on chains, and above the
-- number of pairs of blocks, so that on any other table the code's recursion has no end where the
-- fuel is used up. WalkBlocks likewise has the height of its start and the number of blocks, and
-- ReorgBase the number of blocks.
pub mod Ancestor
pub mod Linked
pub mod Closest
pub mod Walk
pub mod Heights
pub mod Base
use x_b10cslashbademeister.Common.{
  ℕ, zero, suc, ◌+◌, ◌*◌, ◌%◌, ◌^◌, Bool, true, false, ◌&&◌, Option, none, some, List, [], ◌∷◌, ltb,
  ◌==◌, if◌then◌else◌, length,
}
use x_b10cslashbademeister.Types.{Hash32, hash_eq, Block, StoredBlock}
use x_b10cslashbademeister.Errors.{
  Result, ok, err, panic, out_of_fuel, parent_not_found, not_chainhead, could_not_load_block,
  retrieving_parent,
}
use x_b10cslashbademeister.Storage.Database.{
  Database, BlockRow, Exec, pure, fail, lift, ◌>>=◌, ◌>>◌, wrap_exec, Query,
}
use x_b10cslashbademeister.Storage.Blocks.{block_by_hash, query_blocks}

-- The last statement of `CommonAncestor`, with `again` for the recursive call.
unfoldable pub parent_step :
    (StoredBlock → StoredBlock → Exec StoredBlock) → StoredBlock → StoredBlock → Exec StoredBlock
parent_step again a b = do
  a_parent ← wrap_exec retrieving_parent (block_by_hash a.parent)
  elim a_parent [ none ↦ fail (parent_not_found a.parent) | some p ↦ again p b ]

-- One call of `CommonAncestor`, with `again` for the recursive call: what comes after the swap.
-- The heights are uint32.
unfoldable pub ancestor_step :
    (StoredBlock → StoredBlock → Exec StoredBlock) → StoredBlock → StoredBlock → Exec StoredBlock
ancestor_step again a b =
    if a.height == b.height && hash_eq a.hash b.hash
    then pure a
    else if a.height == (b.height + 1) % 2 ^ 32 && hash_eq a.parent b.hash
    then pure b
    else parent_step again a b

unfoldable pub common_ancestor_from : ℕ → StoredBlock → StoredBlock → Exec StoredBlock
unfolding ancestor_step parent_step
common_ancestor_from zero a b = lift out_of_fuel
common_ancestor_from (suc fuel) a b =
    let again = common_ancestor_from fuel in
    if ltb a.height b.height then ancestor_step again b a else ancestor_step again a b

-- A recursion that goes on for longer meets two blocks again that it has met, and never ends. Two
-- blocks are those of the call or stored ones.
unfoldable pub pairs : Database → ℕ
pairs db = (length db.blocks + 2) * (length db.blocks + 2)

unfoldable pub common_ancestor : StoredBlock → StoredBlock → Exec StoredBlock
common_ancestor a b db = common_ancestor_from (suc (a.height + b.height + pairs db)) a b db

-- The loop of `WalkBlocks` with an end. The callback is a closure: `s` is what it has captured and
-- changes. A parent that is not stored is a nil pointer, which the loop's test dereferences.
unfoldable pub walk_to :
    {S : Type 0} → ℕ → StoredBlock → StoredBlock → (StoredBlock → S → Exec S) → S → Exec S
walk_to zero current end f s = lift out_of_fuel
walk_to (suc fuel) current end f s = elim (hash_eq current.hash end.hash) [
  | true ↦ pure s
  | false ↦ do
    s' ← f current s
    parent_block ← block_by_hash current.parent
    elim parent_block [ none ↦ lift panic | some p ↦ walk_to fuel p end f s' ]
]

-- Without an end, `f` is called once.
unfoldable pub walk_blocks :
    {S : Type 0} → StoredBlock → Option StoredBlock → (StoredBlock → S → Exec S) → S → Exec S
walk_blocks start none f s db = (do s' ← f start s; block_by_hash start.parent; pure s') db
walk_blocks start (some end) f s db =
    walk_to (suc (start.height + suc (length db.blocks))) start end f s db

-- `for _, b := range blocks { if b.IsBest { lastBest = &b } }`
unfoldable pub last_best : List StoredBlock → StoredBlock → StoredBlock
last_best [] best = best
last_best (b ∷ bs) best = last_best bs (if b.is_best then b else best)

-- ORDER BY first_seen ASC
unfoldable pub earlier_first_seen : BlockRow → BlockRow → Bool
earlier_first_seen r s = ltb r.first_seen s.first_seen

unfoldable pub blocks_at : ℕ → Exec (List StoredBlock)
blocks_at height =
    query_blocks
      (record { condition = λ r. r.height == height; order = some earlier_first_seen; limit = 0 })

-- The loop of `ReorgBase` over increasing heights.
unfoldable pub scan_heights : ℕ → ℕ → StoredBlock → Exec StoredBlock
unfolding blocks_at last_best
scan_heights zero height best = lift out_of_fuel
scan_heights (suc fuel) height best = do
  blocks ← blocks_at height
  let best' = last_best blocks best
  elim (ltb (length blocks) 2) [
    | true ↦ pure best'
    | false ↦ scan_heights fuel ((height + 1) % 2 ^ 32) best'
  ]

unfoldable pub reorg_base : Block → Exec StoredBlock
unfolding scan_heights
reorg_base block =
    if block.is_best
    then (do
      stored ← block_by_hash block.hash
      elim stored [
        | none ↦ fail (could_not_load_block block.hash)
        | some s ↦ λ db.
            (do best ← scan_heights (suc (length db.blocks)) block.height s; common_ancestor s best)
              db
      ])
    else fail not_chainhead
