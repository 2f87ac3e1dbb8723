-- ===== src/Mempool/Events/Turn.antt =====
-- One call of `NextEvent`: it finds the first thing behind the cursors.
use x_b10cslashbademeister.Common.{
  ℕ, ◌<◌, ◌≡◌, refl, ◌⊎◌, inl, inr, true, Bool-cases, Option, none, some, arith, In, filter-In,
}
use x_b10cslashbademeister.Types.{at_second, before, StoredBlock, StoredTransaction}
use x_b10cslashbademeister.Errors.{Result, ok, err, Error}
use x_b10cslashbademeister.Storage.Database.{TransactionRow, BlockRow}
use x_b10cslashbademeister.Storage.Transactions.{to_stored_transaction}
use x_b10cslashbademeister.Storage.Blocks.{to_stored_block}
use x_b10cslashbademeister.Storage.Blocks.Lookup.{In-find_block}
use x_b10cslashbademeister.Storage.Chain.Linked.{IsStored, found-IsStored}
use x_b10cslashbademeister.Mempool.{Session}
use x_b10cslashbademeister.Mempool.Buffers.{last_transaction_dbid, last_block_dbid}
use x_b10cslashbademeister.Mempool.Buffers.Order.{is_behind}
use x_b10cslashbademeister.Mempool.Buffers.Window.{IsNext, no_more, next}
use x_b10cslashbademeister.Mempool.Buffers.Transactions as Transactions
use x_b10cslashbademeister.Mempool.Buffers.Transactions.{next_transaction-IsNext}
use x_b10cslashbademeister.Mempool.Buffers.Blocks.{best_rows, next_block-IsNext}
use x_b10cslashbademeister.Mempool.Events.{Event, next_event, event_of}
use x_b10cslashbademeister.Mempool.Events.Total.{new_block_event-EventOf}
use x_b10cslashbademeister.Mempool.Events.Next.{
  IsReady, IsCaughtUp, refilled, IsFirst, Turn, transaction-IsFirst, block-IsFirst,
}

-- How `event_of` ends.
abbrev Given : Session → Result (Option Event) × Session → Type 0
Given s out =
    ((out ≡ (ok none, s)) × ((sec : ℕ) → IsCaughtUp s sec))
    ⊎ ((e : Event) × (out ≡ (ok (some e), s)) × IsFirst s e)
    ⊎ ((e : Error) × (out ≡ (err e, s)))

module _ (s : Session) (ready : IsReady s) where
  abbrev NextTransaction : Option StoredTransaction → Type 0
  NextTransaction =
      IsNext (λ (r : TransactionRow). r.first_seen) (λ r. r.id) to_stored_transaction
        s.db.transactions s.mempool.time.sec (last_transaction_dbid s.mempool)

  abbrev NextBlock : Option StoredBlock → Type 0
  NextBlock =
      IsNext (λ (r : BlockRow). r.first_seen) (λ r. r.id) to_stored_block (best_rows s.db.blocks)
        s.mempool.time.sec (last_block_dbid s.mempool)

  row-IsStored :
      (r : BlockRow) → In r (best_rows s.db.blocks) → IsStored s.db.blocks (to_stored_block r)
  row-IsStored r i = found-IsStored r.hash (to_stored_block r) (
      In-find_block s.db.blocks r ready.chains.unique
        (filter-In (λ q. q.is_best) r s.db.blocks i).0)

  block-Given :
      (r : BlockRow)
      → In r (best_rows s.db.blocks)
      → is_behind
          (λ (q : BlockRow). q.first_seen)
          (λ q. q.id)
          s.mempool.time.sec
          (last_block_dbid s.mempool)
          r
        ≡ true
      → ((sec : ℕ) → sec < r.first_seen → IsCaughtUp s sec)
      → Given s (event_of none (some (to_stored_block r)) s)
  unfolding event_of to_stored_block
  block-Given r i behind first =
      elim (new_block_event-EventOf s ready.chains (to_stored_block r) ready.last
        (row-IsStored r i)) [
          | inl (e, run, time, block, no_tx) ↦ inr (
              inl (
                e,
                rw run refl,
                block-IsFirst s ready r i behind first e time block no_tx (row-IsStored r i),
              ))
          | inr (e, run) ↦ inr (inr (e, rw run refl))
        ]

  event_of-Given :
      (tx : Option StoredTransaction) (b : Option StoredBlock)
      → NextTransaction tx
      → NextBlock b
      → Given s (event_of tx b s)
  unfolding event_of to_stored_transaction to_stored_block
  event_of-Given tx b (no_more h) (no_more g) = inl (
    refl,
    λ sec. record {
      transactions = λ r i e. absurd (ground (arith, h r i));
      blocks = λ r i e. absurd (ground (arith, g r i));
    },
  )
  event_of-Given tx b (no_more h) (next q j f low) = block-Given q j f λ sec lt. record {
    transactions = λ r i e. absurd (ground (arith, h r i));
    blocks = λ r i e. ground (arith, low r i e);
  }
  event_of-Given tx b (next r i e low) (no_more g) = inr (
      inl (
        _,
        refl,
        transaction-IsFirst s ready r i e λ sec lt. record {
          transactions = λ q j f. ground (arith, low q j f);
          blocks = λ q j f. absurd (ground (arith, g q j));
        },
      ))
  event_of-Given tx b (next r i e low) (next q j f low') =
      elim (Bool-cases (before (at_second q.first_seen) (at_second r.first_seen))) [
        | inl t ↦ rw t (
            block-Given q j f λ sec lt. record {
              transactions = λ p k g. ground (arith, low p k g);
              blocks = λ p k g. ground (arith, low' p k g);
            })
        | inr t ↦ rw t (
            inr (
              inl (
                _,
                refl,
                transaction-IsFirst s ready r i e λ sec lt. record {
                  transactions = λ p k g. ground (arith, low p k g);
                  blocks = λ p k g. ground (arith, low' p k g);
                },
              )))
      ]

pub next_event-Turn : (s : Session) → IsReady s → Turn s (next_event s)
unfolding next_event last_transaction_dbid last_block_dbid
next_event-Turn s ready =
    let (tx, txs, run, first, ahead) =
      next_transaction-IsNext s ready.n ready.chains.sound ready.whole ready.transaction_size
        ready.transactions_ahead in
    let (b, blocks, run', first', ahead') =
      next_block-IsNext (Transactions.buffered txs s) ready.m ready.chains.sound ready.whole
        ready.block_size ready.blocks_ahead in
    let ready' : IsReady (refilled txs blocks s) = record {
      chains = ready.chains;
      whole = ready.whole;
      n = ready.n;
      m = ready.m;
      transaction_size = ready.transaction_size;
      block_size = ready.block_size;
      transactions_ahead = ahead;
      blocks_ahead = ahead';
      last = ready.last;
    } in
    (
      txs,
      blocks,
      elim (event_of-Given (refilled txs blocks s) ready' tx b first first') [
        | inl (out, idle) ↦ inl (rw (run, run') out, ready', idle)
        | inr (inl (e, out, is_first)) ↦ inr (inl (e, rw (run, run') out, ready', is_first))
        | inr (inr (e, out)) ↦ inr (inr (e, rw (run, run') out))
      ],
    )
