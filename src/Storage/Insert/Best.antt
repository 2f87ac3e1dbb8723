-- ===== src/Storage/Insert/Best.antt =====
-- What `updateBestBlock` does to the column `last_removed`: against a table in which every
-- transaction is set at once, by the two branches from the common ancestor.
use x_b10cslashbademeister.Common.{
  length, ◌+◌, ℕ, suc, ◌≡◌, refl, ap, ◌∙◌, Bool, false, ◌||◌, Option, none, some, List, [], ◌∷◌,
  arith, if◌then◌else◌,
}
use x_b10cslashbademeister.Types.{Time, Hash32, StoredBlock}
use x_b10cslashbademeister.Errors.{Result, ok}
use x_b10cslashbademeister.Storage.Database.{Database, TransactionRow, LinkRow}
use x_b10cslashbademeister.Storage.Database.Runs.{IsSound, statement_lem}
use x_b10cslashbademeister.Storage.Transactions.{linked_ids, contains}
use x_b10cslashbademeister.Storage.Blocks.Lookup.{find_block}
use x_b10cslashbademeister.Storage.Chain.{walk_blocks}
use x_b10cslashbademeister.Storage.Chain.Linked.{Ancestor, IsStored, HasChains}
use x_b10cslashbademeister.Storage.Chain.Closest.{common_ancestor-Closest}
use x_b10cslashbademeister.Storage.Chain.Walk.{
  Branch, Ancestor-Branch, Branch-length, after_all, IsCallback, walk_to-after_all,
}
use x_b10cslashbademeister.Storage.Insert.{set_last_removed, update_last_removed, update_best_block}

-- The transaction with the id is linked to one of the blocks.
unfoldable pub confirms : ℕ → List StoredBlock → List LinkRow → Bool
confirms id [] links = false
confirms id (b ∷ l) links = contains id (linked_ids b.dbid links) || confirms id l links

-- The rows with a marked id get the value.
mark : (ℕ → Bool) → Option ℕ → List TransactionRow → List TransactionRow
mark p value [] = []
mark p value (r ∷ rows) =
    (if p r.id then record r { last_removed = value } else r) ∷ mark p value rows

-- The new column: the time, for what the new branch confirms; null, for what only the old branch
-- confirms; else what was there.
unfoldable pub reassign :
    List StoredBlock
    → List StoredBlock
    → ℕ
    → List LinkRow
    → List TransactionRow
    → List TransactionRow
reassign old fresh sec links [] = []
reassign old fresh sec links (r ∷ rows) =
    record r {
      last_removed =
          if confirms r.id fresh links
          then some sec
          else if confirms r.id old links
          then none
          else r.last_removed;
    }
    ∷ reassign old fresh sec links rows

set_last_removed-mark :
    (ids : List ℕ) (value : Option ℕ) (rows : List TransactionRow)
    → set_last_removed ids value rows ≡ mark (λ id. contains id ids) value rows
unfolding set_last_removed mark
set_last_removed-mark ids value [] = refl
set_last_removed-mark ids value (r ∷ rows) = rw (set_last_removed-mark ids value rows)

mark-mark :
    (p q : ℕ → Bool) (value : Option ℕ) (rows : List TransactionRow)
    → mark q value (mark p value rows) ≡ mark (λ id. p id || q id) value rows
unfolding mark
mark-mark p q value [] = refl
mark-mark p q value (r ∷ rows) = ground (arith, mark-mark p q value rows)

mark-none : (value : Option ℕ) (rows : List TransactionRow) → mark (λ id. false) value rows ≡ rows
unfolding mark
mark-none value [] = refl
mark-none value (r ∷ rows) = rw (mark-none value rows)

mark-reassign :
    (old fresh : List StoredBlock) (sec : ℕ) (links : List LinkRow) (rows : List TransactionRow)
    → mark (λ id. confirms id fresh links) (some sec) (mark (λ id. confirms id old links) none rows)
      ≡ reassign old fresh sec links rows
unfolding mark reassign
mark-reassign old fresh sec links [] = refl
mark-reassign old fresh sec links (r ∷ rows) =
    ground (arith, mark-reassign old fresh sec links rows)

abbrev seconds : Option Time → Option ℕ
seconds none = none
seconds (some t) = some t.sec

-- The effect of `updateLastRemoved`.
removal : Option Time → StoredBlock → Unit {0} → Database → Unit {0} × Database
removal t b s db = (
  tt,
  record db {
    transactions =
        set_last_removed (linked_ids b.dbid db.transaction_blocks) (seconds t) db.transactions;
  },
)

update_last_removed-removal :
    (t : Option Time) (b : StoredBlock) (db : Database)
    → IsSound db.engine
    → update_last_removed b t db ≡ (ok tt, (removal t b tt db).1)
unfolding update_last_removed removal
update_last_removed-removal none b db sound = rw (statement_lem, sound.no_faults)
update_last_removed-removal (some t) b db sound = rw (statement_lem, sound.no_faults)

removal-IsCallback : (t : Option Time) → IsCallback (λ b s. update_last_removed b t) (removal t)
unfolding removal
removal-IsCallback t = record {
  run = λ b s. update_last_removed-removal t b;
  same_blocks = λ b s db. refl;
  same_engine = λ b s db. refl;
}

-- The effects on a branch together.
abbrev marked : Option Time → List StoredBlock → Database → Database
marked t l db = record db {
  transactions = mark (λ id. confirms id l db.transaction_blocks) (seconds t) db.transactions;
}

after_all-marked :
    (t : Option Time) (l : List StoredBlock) (db : Database)
    → after_all (removal t) l tt db ≡ (tt, marked t l db)
unfolding removal confirms
after_all-marked t [] db = rw mark-none
after_all-marked t (b ∷ l) db =
    rw (after_all-marked t l (removal t b tt db).1, set_last_removed-mark, mark-mark)

walk_blocks-marked :
    (t : Option Time) (start end : StoredBlock) {l : List StoredBlock} (db : Database)
    → HasChains db
    → IsStored db.blocks start
    → Branch db.blocks end.hash start l
    → walk_blocks start (some end) (λ b s. update_last_removed b t) tt db ≡ (ok tt, marked t l db)
unfolding walk_blocks
walk_blocks-marked t start end {l} db chains s branch =
    walk_to-after_all (removal-IsCallback t) chains.unique chains.sound end
      (suc (start.height + suc (length db.blocks))) tt db branch
      (omega (arith, Branch-length chains.linked s branch)) refl refl
    ∙ ap (λ (d : Unit {0} × Database). let r : Result (Unit {0}) × Database = (ok d.0, d.1) in r)
        (after_all-marked t l db)

-- The run changed `last_removed` alone, by the branches from the closest common ancestor.
pub record Reassigned (db : Database) (h : Hash32) (last_best new_best : StoredBlock)
    (out : Result (Unit {0}) × Database) : Type 0 where
  pub ancestor : StoredBlock
  pub below : Ancestor db.blocks h ancestor
  pub old : List StoredBlock
  pub fresh : List StoredBlock
  pub old_branch : Branch db.blocks ancestor.hash last_best old
  pub new_branch : Branch db.blocks ancestor.hash new_best fresh
  pub effect : out ≡ (
    ok tt,
    record db {
      transactions =
          reassign old fresh new_best.first_seen.sec db.transaction_blocks db.transactions;
    },
  )

-- On chains, where the last best and the new best block have a stored common ancestor,
-- `updateBestBlock` succeeds. With the closest common ancestor, `last_removed` becomes the time of
-- the new best block for every transaction that is linked to the new branch, null for every other
-- that is linked to the old branch, and stays what it was for the rest; nothing else changes.
pub update_best_block-Reassigned :
    (db : Database) (h : Hash32) (x last_best new_best : StoredBlock)
    → HasChains db
    → find_block h db.blocks ≡ some x
    → IsStored db.blocks last_best
    → IsStored db.blocks new_best
    → Ancestor db.blocks h last_best
    → Ancestor db.blocks h new_best
    → Reassigned db h last_best new_best (update_best_block (some last_best) new_best db)
unfolding update_best_block
update_best_block-Reassigned db h x last_best new_best chains known sl sn of_last of_new =
    let c = common_ancestor-Closest db chains h x known new_best last_best sn sl of_new of_last in
    let (old, old_branch) = Ancestor-Branch c.stored.row c.stored.found last_best c.of_second in
    let (fresh, new_branch) = Ancestor-Branch c.stored.row c.stored.found new_best c.of_first in
    record {
      ancestor = c.block;
      below = c.below;
      old = old;
      fresh = fresh;
      old_branch = old_branch;
      new_branch = new_branch;
      effect = rw (
        c.returns,
        walk_blocks-marked none last_best c.block db chains sl old_branch,
        walk_blocks-marked (some new_best.first_seen) new_best c.block (marked none old db)
            (record { sound = chains.sound; unique = chains.unique; linked = chains.linked }) sn
            new_branch,
        mark-reassign old fresh new_best.first_seen.sec db.transaction_blocks db.transactions,
      );
    }
