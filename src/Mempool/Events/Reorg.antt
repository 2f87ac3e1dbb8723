-- ===== src/Mempool/Events/Reorg.antt =====
-- The mempool after the event of a new best block: `newBlockEvent` and `ApplyEvent` together.
use x_b10cslashbademeister.Common.{
  ℕ, ◌≡◌, refl, sym, ap, ◌∙◌, inl, inr, Bool-cases, none, some, List, In, if◌then◌else◌,
}
use x_b10cslashbademeister.Types.{Hash32, hash_eq, StoredBlock, StoredTransaction}
use x_b10cslashbademeister.Errors.{ok}
use x_b10cslashbademeister.Storage.Database.{Database, TransactionRow}
use x_b10cslashbademeister.Storage.Database.Runs.{IsSound}
use x_b10cslashbademeister.Storage.Transactions.{to_stored_transaction, contains}
use x_b10cslashbademeister.Storage.Blocks.Lookup.{find_block}
use x_b10cslashbademeister.Storage.Chain.Linked.{Ancestor, IsStored, HasChains}
use x_b10cslashbademeister.Storage.Chain.Closest.{common_ancestor-Closest}
use x_b10cslashbademeister.Storage.Chain.Walk.{Branch, Ancestor-Branch}
use x_b10cslashbademeister.Mempool.{Session, TransactionMap}
use x_b10cslashbademeister.Mempool.Events.{
  block_confirmation, block_reorg, Event, new_block_event, apply_event, add_all, remove_all,
}
use x_b10cslashbademeister.Mempool.Events.Branches.{
  gather, linked_transactions, linked_dbids, branch_event, new_block_event-branches,
}
use x_b10cslashbademeister.Mempool.Events.Links.{
  IsLinkedTo, contains-In, In-contains, remove_all-In, add_all-none, add_all-some, dbids-IsLinkedTo,
  IsLinkedTo-dbids, transactions-IsLinkedTo, IsLinkedTo-transactions,
}

-- The primary key of the table "transaction".
pub record UniqueIds (rows : List TransactionRow) : Type 0 where
  pub unique_id : (r s : TransactionRow) → In r rows → In s rows → r.id ≡ s.id → r ≡ s

-- The map after a reorg, against the map before it.
pub record Reorganised (db : Database) (old fresh : List StoredBlock) (m m' : TransactionMap)
    : Type 0 where
  pub confirmed : (id : ℕ) → IsLinkedTo db.transaction_blocks fresh id → m' id ≡ none
  pub returned :
      (r : TransactionRow)
      → In r db.transactions
      → IsLinkedTo db.transaction_blocks old r.id
      → ¬ IsLinkedTo db.transaction_blocks fresh r.id
      → m' r.id ≡ some (to_stored_transaction r)
  pub untouched :
      (id : ℕ)
      → ¬ IsLinkedTo db.transaction_blocks old id
      → ¬ IsLinkedTo db.transaction_blocks fresh id
      → m' id ≡ m id

module _ (db : Database) (sound : IsSound db.engine) (keys : UniqueIds db.transactions)
    (old fresh : List StoredBlock) (m : TransactionMap) where
  abbrev after : TransactionMap
  after =
      remove_all (gather (linked_dbids db) fresh) (add_all (gather (linked_transactions db) old) m)

  not_confirmed :
      (id : ℕ)
      → ¬ IsLinkedTo db.transaction_blocks fresh id
      → after id ≡ add_all (gather (linked_transactions db) old) m id
  not_confirmed id absent = elim (Bool-cases (contains id (gather (linked_dbids db) fresh))) [
    | inl e ↦ absurd (
        absent
          (dbids-IsLinkedTo db sound fresh id (contains-In id (gather (linked_dbids db) fresh) e)))
    | inr e ↦ remove_all-In (gather (linked_dbids db) fresh) _ id ∙ rw e refl
  ]

  after-Reorganised : Reorganised db old fresh m after
  unfolding to_stored_transaction
  after-Reorganised = record {
    confirmed = λ id k.
        remove_all-In (gather (linked_dbids db) fresh) _ id
        ∙ rw
            (In-contains id (gather (linked_dbids db) fresh) (IsLinkedTo-dbids db sound fresh id k))
            refl;
    returned = λ r i k absent.
        not_confirmed r.id absent
        ∙ add_all-some (gather (linked_transactions db) old) m (to_stored_transaction r)
            (λ u j e.
              let (q, a, b, _) = transactions-IsLinkedTo db sound old u j in
              b
              ∙ ap to_stored_transaction
                  (keys.unique_id q r a i (ap (λ (v : StoredTransaction). v.dbid) (sym b) ∙ e)))
            (inl (IsLinkedTo-transactions db sound old r i k));
    untouched = λ id not_old absent.
        not_confirmed id absent
        ∙ add_all-none (gather (linked_transactions db) old) m id (λ tx j e.
          let (q, _, b, k) = transactions-IsLinkedTo db sound old tx j in
          let same : q.id ≡ id = ap (λ (v : StoredTransaction). v.dbid) (sym b) ∙ e in
          not_old (rw (← same) k));
  }

-- What a new best block does to the mempool.
pub record Followed (s : Session) (h : Hash32) (last new_best : StoredBlock) : Type 0 where
  pub event : Event
  pub runs : new_block_event new_best s ≡ (ok event, s)
  pub ancestor : StoredBlock
  pub below : Ancestor s.db.blocks h ancestor
  pub old : List StoredBlock
  pub fresh : List StoredBlock
  pub old_branch : Branch s.db.blocks ancestor.hash last old
  pub new_branch : Branch s.db.blocks ancestor.hash new_best fresh
  pub kind :
      event.type ≡ (if hash_eq ancestor.hash last.hash then block_confirmation else block_reorg)
  pub moved_to :
      ((apply_event event s.mempool).time ≡ new_best.first_seen)
      × ((apply_event event s.mempool).last_block ≡ some new_best)
      × ((apply_event event s.mempool).last_transaction ≡ s.mempool.last_transaction)
  pub map :
      Reorganised s.db old fresh s.mempool.transactions (apply_event event s.mempool).transactions

-- On chains, where the last block of the mempool and a new best block have a stored common
-- ancestor, the event of the new block is computed without an error and without a change. It is a
-- reorg exactly where the closest common ancestor is not the last block. Applied, it moves the
-- mempool to the time of the new block; a transaction linked to the new branch is then not in it,
-- another one linked to the old branch is in it with its stored row, and any other is in it as it
-- was before.
pub new_block_event-Followed :
    (s : Session) (h : Hash32) (x last new_best : StoredBlock)
    → HasChains s.db
    → UniqueIds s.db.transactions
    → find_block h s.db.blocks ≡ some x
    → IsStored s.db.blocks last
    → IsStored s.db.blocks new_best
    → Ancestor s.db.blocks h last
    → Ancestor s.db.blocks h new_best
    → s.mempool.last_block ≡ some last
    → Followed s h last new_best
unfolding apply_event
new_block_event-Followed s h x last new_best chains keys known sl sn of_last of_new current =
    let c = common_ancestor-Closest s.db chains h x known last new_best sl sn of_last of_new in
    let (old, old_branch) = Ancestor-Branch c.stored.row c.stored.found last c.of_first in
    let (fresh, new_branch) = Ancestor-Branch c.stored.row c.stored.found new_best c.of_second in
    record {
      event =
          branch_event s chains last new_best c.block sl sn c.returns old_branch new_branch current;
      runs =
          new_block_event-branches s chains last new_best c.block sl sn c.returns old_branch
            new_branch current;
      ancestor = c.block;
      below = c.below;
      old = old;
      fresh = fresh;
      old_branch = old_branch;
      new_branch = new_branch;
      kind = refl;
      moved_to = (refl, refl, refl);
      map = after-Reorganised s.db chains.sound keys old fresh s.mempool.transactions;
    }
