-- ===== src/Mempool/Events/Sought.antt =====
-- `Seek` of src/storage/mempool.go: it ends, and leaves nothing behind up to the time.
use x_b10cslashbademeister.Common.{
  ℕ, zero, suc, ◌+◌, ◌≤◌, ◌<◌, ◌≡◌, refl, ◌⊎◌, inl, inr, true, false, none, some, Bool-cases,
  Option, List, arith, length,
}
use x_b10cslashbademeister.Types.{Time, before, after, StoredBlock, StoredTransaction}
use x_b10cslashbademeister.Errors.{Result, ok, err, Error}
use x_b10cslashbademeister.Storage.Database.{TransactionRow, BlockRow}
use x_b10cslashbademeister.Mempool.{Session}
use x_b10cslashbademeister.Mempool.Buffers.{last_transaction_dbid, last_block_dbid}
use x_b10cslashbademeister.Mempool.Buffers.Order.{is_behind}
use x_b10cslashbademeister.Mempool.Buffers.Blocks.{best_rows}
use x_b10cslashbademeister.Mempool.Events.{Event, next_event, apply_event, seek_from, seek}
use x_b10cslashbademeister.Mempool.Events.Cursor.{left, count-length}
use x_b10cslashbademeister.Mempool.Events.Next.{
  IsReady, IsCaughtUp, transactions_left, blocks_left, refilled, applied,
}
use x_b10cslashbademeister.Mempool.Events.Turn.{next_event-Turn}

-- Where a search ends that succeeds.
pub record IsSought (s : Session) (t : Time) (s' : Session) : Type 0 where
  pub same_db : s'.db ≡ s.db
  pub ready : IsReady s'
  pub caught_up : IsCaughtUp s' t.sec
  pub not_back : s.mempool.time.sec ≤ s'.mempool.time.sec
  pub not_past : s'.mempool.time.sec ≤ t.sec

-- Events up to the time, applied one after the other as NextEvent gives them.
pub data Replay (t : Time) : Session → Session → Type 0 where
  played : {s : Session} → Replay t s s
  play :
      {s next s' : Session} (e : Event)
      → next_event s ≡ (ok (some e), next)
      → after e.time t ≡ false
      → Replay t (applied e next) s'
      → Replay t s s'

-- NextEvent has nothing more, or an event after the time.
abbrev pub Stops : Time → Session → Session → Type 0
Stops t s s' =
    (next_event s ≡ (ok none, s'))
    ⊎ ((e : Event) × (next_event s ≡ (ok (some e), s')) × (after e.time t ≡ true))

abbrev pub Ends : Session → Time → Result (Unit {0}) × Session → Type 0
Ends s t out =
    ((at_end : Session) × (s' : Session) × Replay t s at_end
      × Stops t at_end s'
      × (out ≡ (ok tt, s'))
      × IsSought s t s')
    ⊎ ((e : Error) × (at_end : Session) × (s' : Session) × Replay t s at_end
        × (next_event at_end ≡ (err e, s'))
        × (out ≡ (err e, s'))
        × (s'.db ≡ s.db))

-- What is left does not depend on the buffers.
refilled-left :
    (txs : List (Option StoredTransaction)) (blocks : List (Option StoredBlock)) (s : Session)
    → transactions_left (refilled txs blocks s) + blocks_left (refilled txs blocks s)
      ≡ transactions_left s + blocks_left s
unfolding last_transaction_dbid last_block_dbid
refilled-left txs blocks s = refl

seek_from-Ends :
    (fuel : ℕ) (t : Time) (s : Session)
    → IsReady s
    → s.mempool.time.sec ≤ t.sec
    → transactions_left s + blocks_left s < fuel
    → Ends s t (seek_from fuel t s)
unfolding seek_from apply_event
seek_from-Ends zero t s ready le lt = elim lt [ ]
seek_from-Ends (suc fuel) t s ready le lt =
    let (txs, blocks, turn) = next_event-Turn s ready in
    elim turn [
      | inl (out, ready', idle) ↦ inl (
        s,
        refilled txs blocks s,
        played,
        inl out,
        ground (arith, out),
        record {
          same_db = refl;
          ready = ready';
          caught_up = idle t.sec;
          not_back = ground arith;
          not_past = le;
        },
      )
      | inr (inr (e, out)) ↦
          inr (e, s, refilled txs blocks s, played, out, ground (arith, out), refl)
      | inr (inl (e, out, ready', first)) ↦ elim (Bool-cases (after e.time t)) [
        | inl q ↦ inl (
          s,
          refilled txs blocks s,
          played,
          inr (e, out, q),
          ground (arith, out, q),
          record {
            same_db = refl;
            ready = ready';
            caught_up = first.first t.sec (ground (arith, first.whole));
            not_back = ground arith;
            not_past = le;
          },
        )
        | inr q ↦
            elim (seek_from-Ends fuel t (applied e (refilled txs blocks s)) first.ready
              (ground arith) (omega (arith, first.fewer, refilled-left txs blocks s))) [
                | inl (at_end, s', replay, stops, run, sought) ↦ inl (
                  at_end,
                  s',
                  play e out q replay,
                  stops,
                  ground (arith, out, q, run),
                  record {
                    same_db = sought.same_db;
                    ready = sought.ready;
                    caught_up = sought.caught_up;
                    not_back = omega (arith, first.later, sought.not_back);
                    not_past = sought.not_past;
                  },
                )
                | inr (e', at_end, s', replay, fails, run, same) ↦
                    inr (
                      e',
                      at_end,
                      s',
                      play e out q replay,
                      fails,
                      ground (arith, out, q, run),
                      same,
                    )
              ]
      ]
    ]

-- On chains, with buffers that belong to the table and a last block that is stored, and with one
-- more round than there are stored transactions and blocks of the consensus chain, `Seek` to a time
-- that is not before that of the mempool ends. It has applied the events that NextEvent gives up to
-- the time, in their order, and no other. Either NextEvent then fails, Seek returns its error, and
-- the tables are as they were; or NextEvent has nothing more or an event after the time, Seek
-- succeeds, the mempool is not past the time, and no transaction and no block of the consensus
-- chain behind its cursors was seen up to it.
pub seek-Ends :
    (t : Time) (s : Session)
    → IsReady s
    → before t s.mempool.time ≡ false
    → Ends s t (seek (suc (length s.db.transactions + length (best_rows s.db.blocks))) t s)
unfolding seek left
seek-Ends t s ready e =
    let txs =
      count-length
        (is_behind (λ (r : TransactionRow). r.first_seen) (λ r. r.id) s.mempool.time.sec
          (last_transaction_dbid s.mempool))
        s.db.transactions in
    let blocks =
      count-length
        (is_behind (λ (r : BlockRow). r.first_seen) (λ r. r.id) s.mempool.time.sec
          (last_block_dbid s.mempool))
        (best_rows s.db.blocks) in
    rw e (
      seek_from-Ends (suc (length s.db.transactions + length (best_rows s.db.blocks))) t s ready
        (ground arith) (omega (arith, txs, blocks)))
