-- ===== src/Mempool/Events/Next.antt =====
-- `NextEvent` on a mempool whose buffers are in order.
use x_b10cslashbademeister.Common.{
  ℕ, suc, ◌+◌, ◌≤◌, ◌<◌, ◌≡◌, refl, ◌⊎◌, true, Option, none, some, List, arith, In,
}
use x_b10cslashbademeister.Types.{at_second, StoredBlock, StoredTransaction}
use x_b10cslashbademeister.Errors.{Result, ok, err, Error}
use x_b10cslashbademeister.Storage.Database.{TransactionRow, BlockRow}
use x_b10cslashbademeister.Storage.Transactions.{to_stored_transaction}
use x_b10cslashbademeister.Storage.Blocks.{to_stored_block}
use x_b10cslashbademeister.Storage.Chain.Linked.{IsStored, HasChains}
use x_b10cslashbademeister.Mempool.{Session}
use x_b10cslashbademeister.Mempool.Buffers.{last_transaction_dbid, last_block_dbid}
use x_b10cslashbademeister.Mempool.Buffers.Order.{is_behind}
use x_b10cslashbademeister.Mempool.Buffers.Window.{IsReadAhead, later-IsReadAhead}
use x_b10cslashbademeister.Mempool.Buffers.Blocks.{best_rows}
use x_b10cslashbademeister.Mempool.Events.{Event, apply_event, new_transaction_event, or_else}
use x_b10cslashbademeister.Mempool.Events.Cursor.{left, left-later, left-taken}

-- The cursors and the buffers of a mempool.
abbrev pub TransactionsAhead : Session → ℕ → ℕ → ℕ → List (Option StoredTransaction) → Type 0
TransactionsAhead s n =
    IsReadAhead (λ (r : TransactionRow). r.first_seen) (λ r. r.id) to_stored_transaction
      (s.db.engine.scan_transactions s.db.transactions) (suc n)

abbrev pub BlocksAhead : Session → ℕ → ℕ → ℕ → List (Option StoredBlock) → Type 0
BlocksAhead s n =
    IsReadAhead (λ (r : BlockRow). r.first_seen) (λ r. r.id) to_stored_block
      (best_rows (s.db.engine.scan_blocks s.db.blocks)) (suc n)

-- A mempool on chains, with buffers of at least one entry that belong to the table, whose last
-- block is stored.
pub record IsReady (s : Session) : Type 0 where
  pub chains : HasChains s.db
  pub whole : s.mempool.time.nsec ≡ 0
  pub n : ℕ
  pub m : ℕ
  pub transaction_size : s.mempool.next_transactions_buffer_size ≡ suc n
  pub block_size : s.mempool.next_block_buffer_size ≡ suc m
  pub transactions_ahead :
      TransactionsAhead s n s.mempool.time.sec
        (last_transaction_dbid s.mempool)
        s.mempool.next_transactions
  pub blocks_ahead :
      BlocksAhead s m s.mempool.time.sec (last_block_dbid s.mempool) s.mempool.next_blocks
  pub last : (b : StoredBlock) → s.mempool.last_block ≡ some b → IsStored s.db.blocks b

abbrev pub transactions_left : Session → ℕ
transactions_left s =
    left (λ (r : TransactionRow). r.first_seen) (λ r. r.id) s.db.transactions s.mempool.time.sec
      (last_transaction_dbid s.mempool)

abbrev pub blocks_left : Session → ℕ
blocks_left s =
    left (λ (r : BlockRow). r.first_seen) (λ r. r.id) (best_rows s.db.blocks) s.mempool.time.sec
      (last_block_dbid s.mempool)

-- Nothing behind the cursors is seen at the time or before.
pub record IsCaughtUp (s : Session) (sec : ℕ) : Type 0 where
  pub transactions :
      (r : TransactionRow)
      → In r s.db.transactions
      → is_behind
          (λ (q : TransactionRow). q.first_seen)
          (λ q. q.id)
          s.mempool.time.sec
          (last_transaction_dbid s.mempool)
          r
        ≡ true
      → sec < r.first_seen
  pub blocks :
      (r : BlockRow)
      → In r (best_rows s.db.blocks)
      → is_behind
          (λ (q : BlockRow). q.first_seen)
          (λ q. q.id)
          s.mempool.time.sec
          (last_block_dbid s.mempool)
          r
        ≡ true
      → sec < r.first_seen

-- The mempool with other buffers.
abbrev pub refilled :
    List (Option StoredTransaction) → List (Option StoredBlock) → Session → Session
refilled txs blocks s = record s {
  mempool = record s.mempool { next_transactions = txs; next_blocks = blocks };
}

abbrev pub applied : Event → Session → Session
applied e s = record s { mempool = apply_event e s.mempool }

-- How `NextEvent` ends: with nothing left, with the first event, or with an error.
pub record IsFirst (s : Session) (e : Event) : Type 0 where
  pub ready : IsReady (applied e s)
  pub whole : e.time.nsec ≡ 0
  pub later : s.mempool.time.sec ≤ e.time.sec
  pub fewer :
      transactions_left (applied e s) + blocks_left (applied e s)
      < transactions_left s + blocks_left s
  pub first : (sec : ℕ) → sec < e.time.sec → IsCaughtUp s sec

abbrev pub Turn : Session → Result (Option Event) × Session → Type 0
Turn s out =
    (txs : List (Option StoredTransaction)) × (blocks : List (Option StoredBlock)) × (((out
          ≡ (ok none, refilled txs blocks s))
        × IsReady (refilled txs blocks s)
        × ((sec : ℕ) → IsCaughtUp (refilled txs blocks s) sec))
      ⊎ ((e : Event) × (out ≡ (ok (some e), refilled txs blocks s))
          × IsReady (refilled txs blocks s)
          × IsFirst (refilled txs blocks s) e)
      ⊎ ((e : Error) × (out ≡ (err e, refilled txs blocks s))))

pub transaction-IsFirst :
    (s : Session)
    → IsReady s
    → (r : TransactionRow) → In r s.db.transactions
    → is_behind
        (λ (q : TransactionRow). q.first_seen)
        (λ q. q.id)
        s.mempool.time.sec
        (last_transaction_dbid s.mempool)
        r
      ≡ true
    → ((sec : ℕ) → sec < r.first_seen → IsCaughtUp s sec)
    → IsFirst s (new_transaction_event (to_stored_transaction r))
unfolding new_transaction_event to_stored_transaction apply_event or_else last_transaction_dbid
    last_block_dbid
transaction-IsFirst s ready r i e first = record {
  ready = record {
    chains = ready.chains;
    whole = refl;
    n = ready.n;
    m = ready.m;
    transaction_size = ready.transaction_size;
    block_size = ready.block_size;
    transactions_ahead =
        later-IsReadAhead (λ (q : TransactionRow). q.first_seen) (λ q. q.id) to_stored_transaction
          (s.db.engine.scan_transactions s.db.transactions) (suc ready.n) s.mempool.time.sec
          (last_transaction_dbid s.mempool) r.first_seen r.id (ground arith)
          ready.transactions_ahead;
    blocks_ahead =
        later-IsReadAhead (λ (q : BlockRow). q.first_seen) (λ q. q.id) to_stored_block
          (best_rows (s.db.engine.scan_blocks s.db.blocks)) (suc ready.m) s.mempool.time.sec
          (last_block_dbid s.mempool) r.first_seen (last_block_dbid s.mempool) (ground arith)
          ready.blocks_ahead;
    last = ready.last;
  };
  whole = refl;
  later = ground arith;
  fewer = omega (
    arith,
    left-taken (λ (q : TransactionRow). q.first_seen) (λ q. q.id) s.db.transactions
        s.mempool.time.sec (last_transaction_dbid s.mempool) r i e,
    left-later (λ (q : BlockRow). q.first_seen) (λ q. q.id) (best_rows s.db.blocks)
        s.mempool.time.sec (last_block_dbid s.mempool) r.first_seen (ground arith),
  );
  first = first;
}

pub block-IsFirst :
    (s : Session)
    → IsReady s
    → (r : BlockRow) → In r (best_rows s.db.blocks)
    → is_behind
        (λ (q : BlockRow). q.first_seen)
        (λ q. q.id)
        s.mempool.time.sec
        (last_block_dbid s.mempool)
        r
      ≡ true
    → ((sec : ℕ) → sec < r.first_seen → IsCaughtUp s sec)
    → (e : Event) → e.time ≡ at_second r.first_seen
    → e.new_block ≡ some (to_stored_block r)
    → e.new_transaction ≡ none
    → IsStored s.db.blocks (to_stored_block r)
    → IsFirst s e
unfolding to_stored_block apply_event or_else last_transaction_dbid last_block_dbid
block-IsFirst s ready r i behind first e time block no_tx stored =
    rw (time, block, no_tx)
      record {
        ready = record {
          chains = ready.chains;
          whole = refl;
          n = ready.n;
          m = ready.m;
          transaction_size = ready.transaction_size;
          block_size = ready.block_size;
          transactions_ahead =
              later-IsReadAhead (λ (q : TransactionRow). q.first_seen) (λ q. q.id)
                to_stored_transaction (s.db.engine.scan_transactions s.db.transactions)
                (suc ready.n) s.mempool.time.sec (last_transaction_dbid s.mempool) r.first_seen
                (last_transaction_dbid s.mempool) (ground arith) ready.transactions_ahead;
          blocks_ahead =
              later-IsReadAhead (λ (q : BlockRow). q.first_seen) (λ q. q.id) to_stored_block
                (best_rows (s.db.engine.scan_blocks s.db.blocks)) (suc ready.m) s.mempool.time.sec
                (last_block_dbid s.mempool) r.first_seen r.id (ground arith) ready.blocks_ahead;
          last = λ b q. let same : to_stored_block r ≡ b = cc in rw (← same) stored;
        };
        whole = refl;
        later = ground arith;
        fewer = omega (
          arith,
          left-taken (λ (q : BlockRow). q.first_seen) (λ q. q.id) (best_rows s.db.blocks)
              s.mempool.time.sec (last_block_dbid s.mempool) r i behind,
          left-later (λ (q : TransactionRow). q.first_seen) (λ q. q.id) s.db.transactions
              s.mempool.time.sec (last_transaction_dbid s.mempool) r.first_seen (ground arith),
        );
        first = first;
      }
