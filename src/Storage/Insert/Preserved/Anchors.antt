-- ===== src/Storage/Insert/Preserved/Anchors.antt =====
-- Every row of the table of blocks passed the check of `insertBlock` (storage_block.go) when it was
-- added, whatever statements fail.
use x_b10cslashbademeister.Common.{◌≡◌, refl, inl, inr, Bool-cases, []}
use x_b10cslashbademeister.Types.{Block}
use x_b10cslashbademeister.Storage.Database.{Database}
use x_b10cslashbademeister.Storage.Database.Runs.{IsScan}
use x_b10cslashbademeister.Storage.Blocks.Lookup.{UniqueHashes}
use x_b10cslashbademeister.Storage.Insert.{has_hash, upsert_block, block_row, add_links}
use x_b10cslashbademeister.Storage.Insert.Anchored.{Anchored, append-Anchored, lower-Anchored}
use x_b10cslashbademeister.Storage.Insert.Preserved.{IsPreserved, Upserts}
use x_b10cslashbademeister.Storage.Insert.Preserved.Blocks.{upsert_transactions-SameBlocks}
use x_b10cslashbademeister.Storage.Insert.Rows.{append-UniqueHashes, lower-UniqueHashes}

-- The driver visits every block once, no two rows have one hash, and every row rests on those
-- before it.
pub record IsGrounded (db : Database) : Type 0 where
  pub fair : IsScan db.engine.scan_blocks
  pub unique : UniqueHashes db.blocks
  pub anchored : Anchored [] db.blocks

abbrev pub GroundedIn : Database → Database → Type 0
GroundedIn a b = IsGrounded a → IsGrounded b

same-IsGrounded :
    (a b : Database)
    → b.blocks ≡ a.blocks
    → b.engine.scan_blocks ≡ a.engine.scan_blocks
    → GroundedIn a b
same-IsGrounded a b e f g = record {
  fair = rw f g.fair;
  unique = rw e g.unique;
  anchored = rw e g.anchored;
}

pub Grounded-IsPreserved : IsPreserved GroundedIn
unfolding add_links
Grounded-IsPreserved = record {
  same = λ a b e f g h. same-IsGrounded a b f h;
  trans = λ a b c k l g. l (k g);
  removal = λ ids value db. same-IsGrounded db _ refl refl;
  links = λ links db. same-IsGrounded db _ refl refl;
  values = λ txs db.
      let same = upsert_transactions-SameBlocks txs db in same-IsGrounded db _ same.0 same.1;
}

pub Grounded-Upserts : (block : Block) → Upserts GroundedIn block
unfolding upsert_block block_row
Grounded-Upserts block db rests g = elim (Bool-cases (has_hash block.hash db.blocks)) [
  | inl old ↦
      rw (old, upsert_block)
        (record {
          fair = g.fair;
          unique = lower-UniqueHashes block.hash block.first_seen.sec db.blocks g.unique;
          anchored = lower-Anchored block.hash block.first_seen.sec [] db.blocks g.anchored;
        })
  | inr new ↦
      rw (new, upsert_block)
        (record {
          fair = g.fair;
          unique = append-UniqueHashes db.blocks _ new g.unique;
          anchored = append-Anchored [] db.blocks _ g.anchored (rests g.fair);
        })
]
