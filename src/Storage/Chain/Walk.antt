-- ===== src/Storage/Chain/Walk.antt =====
-- `WalkBlocks` visits the blocks of a branch, from its tip down to the end and without the end.
use x_b10cslashbademeister.Common.{
  ℕ, zero, suc, ◌≤◌, ◌<◌, ◌≡◌, ap, ◌∙◌, inl, inr, false, Option, some, Bool-cases, List, [], ◌∷◌,
  arith, length,
}
use x_b10cslashbademeister.Types.{Hash32, hash_eq, hash_eq_iff, StoredBlock}
use x_b10cslashbademeister.Errors.{Result, ok}
use x_b10cslashbademeister.Storage.Database.{Database, Engine, BlockRow, Exec}
use x_b10cslashbademeister.Storage.Database.Runs.{IsSound}
use x_b10cslashbademeister.Storage.Blocks.{block_by_hash}
use x_b10cslashbademeister.Storage.Blocks.Lookup.{
  UniqueHashes, find_block, find_block-hash, block_by_hash_lem,
}
use x_b10cslashbademeister.Storage.Chain.{walk_to}
use x_b10cslashbademeister.Storage.Chain.Linked.{
  Ancestor, self, direct, up, IsLinked, IsStored, found-IsStored, parent-height,
}

-- The blocks from `c` along stored parents down to the one with the hash `h`, which is left out.
pub data Branch (rows : List BlockRow) (h : Hash32) : StoredBlock → List StoredBlock → Type 0 where
  arrived : {c : StoredBlock} → c.hash ≡ h → Branch rows h c []
  climb :
      {c p : StoredBlock} {l : List StoredBlock}
      → hash_eq c.hash h ≡ false
      → find_block c.parent rows ≡ some p
      → Branch rows h p l
      → Branch rows h c (c ∷ l)

module _ {rows : List BlockRow} {h : Hash32} (x : StoredBlock)
    (known : find_block h rows ≡ some x) where
  -- A stored ancestor is reached by a branch.
  pub Ancestor-Branch :
      (c : StoredBlock) → Ancestor rows h c → (l : List StoredBlock) × Branch rows h c l
  Ancestor-Branch c (self q) = ([], arrived q)
  Ancestor-Branch c (direct q) = elim (Bool-cases (hash_eq c.hash h)) [
    | inl e ↦ ([], arrived ((hash_eq_iff c.hash h).0 e))
    | inr e ↦ (
      c ∷ [],
      climb e (ap (λ g. find_block g rows) q ∙ known) (arrived (find_block-hash h rows known)),
    )
  ]
  Ancestor-Branch c (up {c = d} {p} q anc) = elim (Bool-cases (hash_eq c.hash h)) [
    | inl e ↦ ([], arrived ((hash_eq_iff c.hash h).0 e))
    | inr e ↦ let (l, b) = Ancestor-Branch p anc in (c ∷ l, climb e q b)
  ]

-- A branch is no longer than its tip is high.
pub Branch-length :
    {rows : List BlockRow} {h : Hash32} {c : StoredBlock} {l : List StoredBlock}
    → IsLinked rows
    → IsStored rows c
    → Branch rows h c l
    → length l ≤ c.height
Branch-length linked s (arrived q) = omega arith
Branch-length linked s (climb {c = d} {p} e q b) =
    omega
      (arith, parent-height d p linked s q, Branch-length linked (found-IsStored d.parent p q) b)

-- The effects of a callback on the blocks of a list, one after the other: on what the closure has
-- captured, and on the database.
abbrev pub after_all :
    {S : Type 0}
    → (StoredBlock → S → Database → S × Database)
    → List StoredBlock
    → S
    → Database
    → S × Database
after_all effect [] s db = (s, db)
after_all effect (b ∷ l) s db = let (s', db') = effect b s db in after_all effect l s' db'

-- The callback succeeds, and leaves the blocks and the driver alone.
pub record IsCallback {S : Type 0} (f : StoredBlock → S → Exec S)
    (effect : StoredBlock → S → Database → S × Database) : Type 0 where
  pub run :
      (b : StoredBlock) (s : S) (db : Database)
      → IsSound db.engine
      → f b s db ≡ (ok (effect b s db).0, (effect b s db).1)
  pub same_blocks : (b : StoredBlock) (s : S) (db : Database) → (effect b s db).1.blocks ≡ db.blocks
  pub same_engine : (b : StoredBlock) (s : S) (db : Database) → (effect b s db).1.engine ≡ db.engine

module _ {S : Type 0} {f : StoredBlock → S → Exec S}
    {effect : StoredBlock → S → Database → S × Database} (callback : IsCallback f effect)
    {rows : List BlockRow} (unique : UniqueHashes rows) {e : Engine} (sound : IsSound e)
    (end : StoredBlock) where
  lookup :
      (h : Hash32) (db : Database)
      → db.blocks ≡ rows
      → db.engine ≡ e
      → block_by_hash h db ≡ (ok (find_block h rows), db)
  lookup h db same_blocks same_engine =
      block_by_hash_lem h db (rw same_engine sound) (rw same_blocks unique)
      ∙ ap
          (λ (l : List BlockRow).
            let r : Result (Option StoredBlock) × Database = (ok (find_block h l), db) in r)
          same_blocks

  -- The walk runs the callback on the blocks of the branch in order.
  pub walk_to-after_all :
      (fuel : ℕ) {c : StoredBlock} {l : List StoredBlock} (s : S) (db : Database)
      → Branch rows end.hash c l
      → length l < fuel
      → db.blocks ≡ rows
      → db.engine ≡ e
      → walk_to fuel c end f s db ≡ (ok (after_all effect l s db).0, (after_all effect l s db).1)
  unfolding walk_to
  walk_to-after_all zero s db b h same_blocks same_engine = elim h [ ]
  walk_to-after_all (suc fuel) {c} s db (arrived q) h same_blocks same_engine =
      ground (arith, (hash_eq_iff c.hash end.hash).1 q)
  walk_to-after_all (suc fuel) s db (climb {c = d} {p} {l} t q b) h same_blocks same_engine =
      let s' = (effect d s db).0 in
      let db' = (effect d s db).1 in
      let blocks' : db'.blocks ≡ rows = callback.same_blocks d s db ∙ same_blocks in
      let engine' : db'.engine ≡ e = callback.same_engine d s db ∙ same_engine in
      ground (
        arith,
        t,
        callback.run d s db (rw same_engine sound),
        lookup d.parent db' blocks' engine',
        q,
        walk_to-after_all fuel s' db' b (omega arith) blocks' engine',
      )
