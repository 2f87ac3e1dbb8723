-- ===== src/Mempool/Events/Branches.antt =====
-- `newBlockEvent` of src/storage/mempool.go: the transactions that a new best block brings back and
-- takes away, by the two branches from the common ancestor.
use mathlib.Core.List.{append_assoc, append-nil}
use x_b10cslashbademeister.Common.{
  length, ◌+◌, ℕ, suc, ◌≡◌, refl, ap, ◌∙◌, none, some, List, [], ◌∷◌, ◌++◌, map, arith, filter,
  if◌then◌else◌,
}
use x_b10cslashbademeister.Types.{hash_eq, StoredBlock, StoredTransaction}
use x_b10cslashbademeister.Errors.{Result, ok}
use x_b10cslashbademeister.Storage.Database.{Database, Exec}
use x_b10cslashbademeister.Storage.Database.Runs.{statement_lem}
use x_b10cslashbademeister.Storage.Transactions.{
  to_stored_transaction, linked_ids, contains, transactions_in_block, transaction_dbids_in_block,
}
use x_b10cslashbademeister.Storage.Chain.{common_ancestor, walk_blocks}
use x_b10cslashbademeister.Storage.Chain.Linked.{IsStored, HasChains}
use x_b10cslashbademeister.Storage.Chain.Walk.{
  Branch, Branch-length, after_all, IsCallback, walk_to-after_all,
}
use x_b10cslashbademeister.Mempool.{Session}
use x_b10cslashbademeister.Mempool.Events.{
  block_confirmation, block_reorg, Event, collect_transactions, collect_dbids, reorged,
  new_block_event,
}

-- What a block is linked to: the stored transactions, and their ids in the order of the scan.
abbrev pub linked_transactions : Database → StoredBlock → List StoredTransaction
linked_transactions db b = map to_stored_transaction (
    filter (λ r. contains r.id (linked_ids b.dbid db.transaction_blocks))
      (db.engine.scan_transactions db.transactions))

abbrev pub linked_dbids : Database → StoredBlock → List ℕ
linked_dbids db b = linked_ids b.dbid (db.engine.scan_links db.transaction_blocks)

abbrev pub gather : {A : Type 0} → (StoredBlock → List A) → List StoredBlock → List A
gather f [] = []
gather f (b ∷ l) = f b ++ gather f l

abbrev appending :
    {A : Type 0}
    → (Database → StoredBlock → List A)
    → StoredBlock
    → List A
    → Database
    → List A × Database
appending f b s db = (s ++ f db b, db)

after_all-gather :
    {A : Type 0} (f : Database → StoredBlock → List A) (l : List StoredBlock) (s : List A)
    (db : Database)
    → after_all (appending f) l s db ≡ (s ++ gather (f db) l, db)
after_all-gather f [] s db = rw append-nil refl
after_all-gather f (b ∷ l) s db = rw (after_all-gather f l (s ++ f db b) db, append_assoc) refl

collect_transactions-IsCallback : IsCallback collect_transactions (appending linked_transactions)
unfolding collect_transactions transactions_in_block
collect_transactions-IsCallback = record {
  run = λ b s db sound. rw (statement_lem, sound.no_faults) refl;
  same_blocks = λ b s db. refl;
  same_engine = λ b s db. refl;
}

collect_dbids-IsCallback : IsCallback collect_dbids (appending linked_dbids)
unfolding collect_dbids transaction_dbids_in_block
collect_dbids-IsCallback = record {
  run = λ b s db sound. rw (statement_lem, sound.no_faults) refl;
  same_blocks = λ b s db. refl;
  same_engine = λ b s db. refl;
}

walk_blocks-gather :
    {A : Type 0} {callback : StoredBlock → List A → Exec (List A)}
    (f : Database → StoredBlock → List A)
    → IsCallback callback (appending f)
    → (start end : StoredBlock) {l : List StoredBlock} (db : Database) → HasChains db
    → IsStored db.blocks start
    → Branch db.blocks end.hash start l
    → walk_blocks start (some end) callback [] db ≡ (ok (gather (f db) l), db)
unfolding walk_blocks
walk_blocks-gather {A} f is_callback start end {l} db chains s branch =
    walk_to-after_all is_callback chains.unique chains.sound end
      (suc (start.height + suc (length db.blocks))) [] db branch
      (omega (arith, Branch-length chains.linked s branch)) refl refl
    ∙ ap (λ (d : List A × Database). let r : Result (List A) × Database = (ok d.0, d.1) in r)
        (after_all-gather f l [] db)

module _ (s : Session) (chains : HasChains s.db) (last new_best ancestor : StoredBlock)
    {old fresh : List StoredBlock} (stored_last : IsStored s.db.blocks last)
    (stored_new : IsStored s.db.blocks new_best)
    (met : common_ancestor last new_best s.db ≡ (ok ancestor, s.db))
    (old_branch : Branch s.db.blocks ancestor.hash last old)
    (new_branch : Branch s.db.blocks ancestor.hash new_best fresh)
    (current : s.mempool.last_block ≡ some last) where
  abbrev pub branch_event : Event
  branch_event = record {
    time = new_best.first_seen;
    type = if hash_eq ancestor.hash last.hash then block_confirmation else block_reorg;
    new_block = some new_best;
    new_transaction = none;
    add_transactions = gather (linked_transactions s.db) old;
    remove_transactions = gather (linked_dbids s.db) fresh;
  }

  pub new_block_event-branches : new_block_event new_best s ≡ (ok branch_event, s)
  unfolding new_block_event reorged
  new_block_event-branches = ground (
    arith,
    current,
    met,
    walk_blocks-gather linked_transactions collect_transactions-IsCallback last ancestor s.db chains
        stored_last old_branch,
    walk_blocks-gather linked_dbids collect_dbids-IsCallback new_best ancestor s.db chains
        stored_new new_branch,
  )
