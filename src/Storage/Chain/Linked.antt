-- ===== src/Storage/Chain/Linked.antt =====
-- Chains in the table of blocks: which hashes are ancestors of a block, and heights that go up by
-- one from a parent to its child.
use x_b10cslashbademeister.Common.{suc, ◌^◌, ◌≤◌, ◌<◌, ◌≡◌, refl, sym, ap, ◌∙◌, some, List, arith}
use x_b10cslashbademeister.Types.{Hash32, StoredBlock}
use x_b10cslashbademeister.Storage.Database.{BlockRow, Database}
use x_b10cslashbademeister.Storage.Database.Runs.{IsSound}
use x_b10cslashbademeister.Storage.Blocks.Lookup.{UniqueHashes, find_block, find_block-hash}

-- `h` is the hash of the block `c`, of its parent, or of an ancestor of its stored parent.
pub data Ancestor (rows : List BlockRow) (h : Hash32) : StoredBlock → Type 0 where
  self : {c : StoredBlock} → c.hash ≡ h → Ancestor rows h c
  direct : {c : StoredBlock} → c.parent ≡ h → Ancestor rows h c
  up :
      {c p : StoredBlock}
      → find_block c.parent rows ≡ some p
      → Ancestor rows h p
      → Ancestor rows h c

-- A stored parent is one lower than its child, as insertBlock checks, and heights are uint32.
pub record IsLinked (rows : List BlockRow) : Type 0 where
  pub heights :
      (h : Hash32) (c p : StoredBlock)
      → find_block h rows ≡ some c
      → find_block c.parent rows ≡ some p
      → c.height ≡ suc p.height
  pub bounded : (h : Hash32) (c : StoredBlock) → find_block h rows ≡ some c → c.height < 2 ^ 32

-- A block that a caller holds, with the height and the parent that are stored under its hash.
pub record IsStored (rows : List BlockRow) (b : StoredBlock) : Type 0 where
  pub row : StoredBlock
  pub found : find_block b.hash rows ≡ some row
  pub same_height : row.height ≡ b.height
  pub same_parent : row.parent ≡ b.parent

module _ {rows : List BlockRow} where
  pub found-IsStored : (h : Hash32) (b : StoredBlock) → find_block h rows ≡ some b → IsStored rows b
  found-IsStored h b e = record {
    row = b;
    found = ap (λ g. find_block g rows) (find_block-hash h rows e) ∙ e;
    same_height = refl;
    same_parent = refl;
  }

  pub parent-height :
      (b p : StoredBlock)
      → IsLinked rows
      → IsStored rows b
      → find_block b.parent rows ≡ some p
      → b.height ≡ suc p.height
  parent-height b p linked s e =
      sym s.same_height
      ∙ linked.heights b.hash s.row p s.found (ap (λ g. find_block g rows) s.same_parent ∙ e)

  -- A stored ancestor is not higher, and on the same height it is the block itself.
  pub Ancestor-height :
      {h : Hash32} {c : StoredBlock} (x : StoredBlock)
      → IsLinked rows
      → IsStored rows c
      → find_block h rows ≡ some x
      → Ancestor rows h c
      → (x.height ≤ c.height) × (x.height ≡ c.height → c.hash ≡ h)
  Ancestor-height {h} {c = b} x linked s e (self q) =
      let same : s.row ≡ x = ground (arith, s.found, e, q) in
      (ground (arith, s.same_height, same), λ _. q)
  Ancestor-height {h} {c = b} x linked s e (direct q) =
      let higher = parent-height b x linked s (ap (λ g. find_block g rows) q ∙ e) in
      (omega arith, λ k. absurd (omega arith))
  Ancestor-height {h} {c = b} x linked s e (up {c} {p} q anc) =
      let below = Ancestor-height x linked (found-IsStored b.parent p q) e anc in
      let higher = parent-height b p linked s q in
      (omega (arith, below.0), λ k. absurd (omega (arith, below.0)))

-- A database whose table of blocks is a set of chains, on a driver that fails no statement.
pub record HasChains (db : Database) : Type 0 where
  pub sound : IsSound db.engine
  pub unique : UniqueHashes db.blocks
  pub linked : IsLinked db.blocks
