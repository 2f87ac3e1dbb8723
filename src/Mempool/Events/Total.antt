-- ===== src/Mempool/Events/Total.antt =====
-- `newBlockEvent` ends on chains: with the event of the block, or with an error.
use x_b10cslashbademeister.Common.{◌≡◌, refl, ◌⊎◌, inl, inr, none, some, Option-cases, [], arith}
use x_b10cslashbademeister.Types.{StoredBlock}
use x_b10cslashbademeister.Errors.{Result, ok, err, Error, parent_not_found}
use x_b10cslashbademeister.Storage.Database.{statement}
use x_b10cslashbademeister.Storage.Database.Runs.{statement_lem}
use x_b10cslashbademeister.Storage.Transactions.{transaction_dbids_in_block}
use x_b10cslashbademeister.Storage.Blocks.Lookup.{block_by_hash_lem}
use x_b10cslashbademeister.Storage.Chain.{common_ancestor, walk_blocks}
use x_b10cslashbademeister.Storage.Chain.Linked.{IsStored, HasChains}
use x_b10cslashbademeister.Storage.Chain.Ancestor.{Unrooted, common_ancestor-total}
use x_b10cslashbademeister.Storage.Chain.Walk.{Ancestor-Branch}
use x_b10cslashbademeister.Mempool.{Session}
use x_b10cslashbademeister.Mempool.Events.{
  Event, block_confirmation, collect_dbids, reorged, new_block_event,
}
use x_b10cslashbademeister.Mempool.Events.Branches.{
  linked_dbids, branch_event, new_block_event-branches,
}

-- The outcome is an event of the block, or an error, and nothing is changed.
abbrev pub EventOf : Session → StoredBlock → Result Event × Session → Type 0
EventOf s b out =
    ((e : Event) × (out ≡ (ok e, s))
      × (e.time ≡ b.first_seen)
      × (e.new_block ≡ some b)
      × (e.new_transaction ≡ none))
    ⊎ ((e : Error) × (out ≡ (err e, s)))

module _ (s : Session) (chains : HasChains s.db) (new_best : StoredBlock) where
  -- The first block of a mempool that has none.
  first_event : s.mempool.last_block ≡ none → EventOf s new_best (new_block_event new_best s)
  unfolding new_block_event reorged walk_blocks collect_dbids transaction_dbids_in_block statement
  first_event e = inl (
    record {
      time = new_best.first_seen;
      type = block_confirmation;
      new_block = some new_best;
      new_transaction = none;
      add_transactions = [];
      remove_transactions = linked_dbids s.db new_best;
    },
    rw
        (
          e,
          statement_lem,
          chains.sound.no_faults,
          block_by_hash_lem new_best.parent s.db chains.sound chains.unique,
        )
        refl,
    refl,
    refl,
    refl,
  )

  Unrooted-event :
      (last : StoredBlock)
      → s.mempool.last_block ≡ some last
      → Unrooted s.db (common_ancestor last new_best s.db)
      → EventOf s new_best (new_block_event new_best s)
  unfolding new_block_event reorged
  Unrooted-event last current (m, run, lost) =
      inr (parent_not_found m, ground (arith, current, run))

  pub new_block_event-EventOf :
      ((b : StoredBlock) → s.mempool.last_block ≡ some b → IsStored s.db.blocks b)
      → IsStored s.db.blocks new_best
      → EventOf s new_best (new_block_event new_best s)
  new_block_event-EventOf stored_last sn = elim (Option-cases s.mempool.last_block) [
    | inl e ↦ first_event e
    | inr (last, e) ↦
        elim (common_ancestor-total s.db chains last new_best (stored_last last e) sn) [
          | inr u ↦ Unrooted-event last e u
          | inl (r, run, of_last, of_new, sr) ↦
              let (old, old_branch) = Ancestor-Branch sr.row sr.found last of_last in
              let (fresh, new_branch) = Ancestor-Branch sr.row sr.found new_best of_new in
              inl (
                branch_event s chains last new_best r (stored_last last e) sn run old_branch
                    new_branch e,
                new_block_event-branches s chains last new_best r (stored_last last e) sn run
                    old_branch new_branch e,
                refl,
                refl,
                refl,
              )
        ]
  ]
