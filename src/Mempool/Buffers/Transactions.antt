-- ===== src/Mempool/Buffers/Transactions.antt =====
-- `NextTransaction` with its buffer, against the rows behind the cursor.
use x_b10cslashbademeister.Common.{
  ℕ, suc, ◌≡◌, refl, inl, inr, true, false, Option-cases, Option, List, [], map, arith, ltb, take,
}
use x_b10cslashbademeister.Types.{Time, StoredTransaction}
use x_b10cslashbademeister.Errors.{ok}
use x_b10cslashbademeister.Storage.Database.{Database, TransactionRow, format_query}
use x_b10cslashbademeister.Storage.Database.Runs.{IsSound, statement_lem}
use x_b10cslashbademeister.Storage.Transactions.{
  to_stored_transaction, query_transactions, next_transactions, earlier_transaction,
}
use x_b10cslashbademeister.Mempool.{Session}
use x_b10cslashbademeister.Mempool.Buffers.{
  is_next, last_transaction_dbid, set_transactions, fill_transactions, pick_transaction,
  reload_transactions, store_transactions, is_empty, next_transaction_from, next_transaction,
}
use x_b10cslashbademeister.Mempool.Buffers.Order.{is_behind}
use x_b10cslashbademeister.Mempool.Buffers.Window.{
  first_of, reading, IsNext, following-IsNext, window, fill_buffer-window, window_not_empty,
  following, IsReadAhead, not_filled, filled, Reached, Scanned, scan_buffer-Scanned,
  scan_buffer-fresh,
}

-- The rows that NextTransactions reads behind a cursor, on the order of the scan.
abbrev pub transactions_behind : Database → ℕ → ℕ → List TransactionRow
transactions_behind db =
    following (λ r. r.first_seen) (λ r. r.id) to_stored_transaction
      (db.engine.scan_transactions db.transactions)

positive : (n : ℕ) → ltb 0 (suc n) ≡ true
positive n = ground arith

next_transactions_lem :
    (db : Database) (t : Time) (k n : ℕ)
    → IsSound db.engine
    → next_transactions t k (suc n) db
      ≡ (ok (map to_stored_transaction (take (suc n) (transactions_behind db t.sec k))), db)
unfolding next_transactions query_transactions format_query following earlier_transaction
next_transactions_lem db t k n sound = rw (statement_lem, sound.no_faults, positive n) refl

-- The session with another buffer.
abbrev pub buffered : List (Option StoredTransaction) → Session → Session
buffered buffer s = record s { mempool = record s.mempool { next_transactions = buffer } }

module _ (s : Session) (n : ℕ) (sound : IsSound s.db.engine) (whole : s.mempool.time.nsec ≡ 0)
    (size : s.mempool.next_transactions_buffer_size ≡ suc n) where
  abbrev rows : List TransactionRow
  rows = transactions_behind s.db s.mempool.time.sec (last_transaction_dbid s.mempool)

  abbrev first : Option StoredTransaction
  first = first_of to_stored_transaction rows

  test-is_behind :
      (r : TransactionRow)
      → is_next s.mempool.time
          (last_transaction_dbid s.mempool)
          (to_stored_transaction r).first_seen
          (to_stored_transaction r).dbid
        ≡ is_behind
            (λ (q : TransactionRow). q.first_seen)
            (λ q. q.id)
            s.mempool.time.sec
            (last_transaction_dbid s.mempool)
            r
  unfolding is_next to_stored_transaction
  test-is_behind r = ground arith

  refilled :
      fill_transactions (buffered [] s)
      ≡ (ok tt, buffered (window to_stored_transaction (suc n) rows) s)
  unfolding fill_transactions reload_transactions store_transactions is_empty set_transactions
      last_transaction_dbid
  refilled =
      rw
        (
          size,
          next_transactions_lem s.db s.mempool.time (last_transaction_dbid s.mempool) n sound,
          fill_buffer-window to_stored_transaction (suc n) rows,
        )
        refl

  picked_fresh :
      pick_transaction (buffered (window to_stored_transaction (suc n) rows) s).mempool
      ≡ reading first
  unfolding pick_transaction last_transaction_dbid
  picked_fresh =
      scan_buffer-fresh (λ (q : TransactionRow). q.first_seen) (λ q. q.id) to_stored_transaction
        (s.db.engine.scan_transactions s.db.transactions) _ n s.mempool.time.sec
        (last_transaction_dbid s.mempool) test-is_behind

  -- From an empty buffer one call is enough.
  from_empty :
      (fuel : ℕ)
      → next_transaction_from (suc fuel) (buffered [] s)
        ≡ (ok first, buffered (window to_stored_transaction (suc n) rows) s)
  unfolding next_transaction_from
  from_empty fuel = elim (Option-cases first) [
    | inl e ↦ ground (arith, refilled, picked_fresh, e)
    | inr (r, e) ↦ ground (arith, refilled, picked_fresh, e)
  ]

  kept :
      (buffer : List (Option StoredTransaction))
      → is_empty buffer ≡ false
      → fill_transactions (buffered buffer s) ≡ (ok tt, buffered buffer s)
  unfolding fill_transactions
  kept buffer e = rw e refl

  -- A buffer that was filled at an earlier cursor.
  picked_Scanned :
      (t₀ k₀ : ℕ)
      → Reached
          (λ (q : TransactionRow). q.first_seen)
          (λ q. q.id)
          to_stored_transaction
          (s.db.engine.scan_transactions s.db.transactions)
          t₀
          k₀
          s.mempool.time.sec
          (last_transaction_dbid s.mempool)
      → Scanned
          (λ (q : TransactionRow). q.first_seen)
          (λ q. q.id)
          to_stored_transaction
          (s.db.engine.scan_transactions s.db.transactions)
          s.mempool.time.sec
          (last_transaction_dbid s.mempool)
          (pick_transaction
            (buffered
              (window to_stored_transaction (suc n) (transactions_behind s.db t₀ k₀))
              s).mempool)
  unfolding pick_transaction last_transaction_dbid
  picked_Scanned t₀ k₀ reached =
      scan_buffer-Scanned (λ (q : TransactionRow). q.first_seen) (λ q. q.id) to_stored_transaction
        (s.db.engine.scan_transactions s.db.transactions)
        (λ tx. is_next s.mempool.time (last_transaction_dbid s.mempool) tx.first_seen tx.dbid)
        (suc n) t₀ k₀ s.mempool.time.sec (last_transaction_dbid s.mempool) test-is_behind reached

  abbrev pub Ahead : List (Option StoredTransaction) → Type 0
  Ahead =
      IsReadAhead (λ (r : TransactionRow). r.first_seen) (λ r. r.id) to_stored_transaction
        (s.db.engine.scan_transactions s.db.transactions) (suc n) s.mempool.time.sec
        (last_transaction_dbid s.mempool)

  next_transaction-buffered :
      (buffer : List (Option StoredTransaction))
      → Ahead buffer
      → (buffer' : List (Option StoredTransaction)) × (next_transaction (buffered buffer s)
          ≡ (ok first, buffered buffer' s))
        × Ahead buffer'
  unfolding next_transaction next_transaction_from set_transactions
  next_transaction-buffered buffer not_filled = (
    _,
    from_empty 1,
    filled s.mempool.time.sec (last_transaction_dbid s.mempool) (inr (refl, omega arith)),
  )
  next_transaction-buffered buffer (filled t₀ k₀ reached) =
      let b = window to_stored_transaction (suc n) (transactions_behind s.db t₀ k₀) in
      let full =
        kept b (window_not_empty to_stored_transaction n (transactions_behind s.db t₀ k₀)) in
      elim (picked_Scanned t₀ k₀ reached) [
        | inl q ↦ (b, ground (arith, full, q, Option-cases first), filled t₀ k₀ reached)
        | inr q ↦ (
          _,
          ground (arith, full, q, from_empty 0),
          filled s.mempool.time.sec (last_transaction_dbid s.mempool) (inr (refl, omega arith)),
        )
      ]

  -- On a driver that fails no statement, with a buffer of at least one entry that was filled at an
  -- earlier cursor or is empty, and at a time of whole seconds, `NextTransaction` returns the first
  -- stored transaction behind the cursor, or nil where there is none. It changes the buffer alone,
  -- which stays good for the cursors from there on.
  pub next_transaction-IsNext :
      Ahead s.mempool.next_transactions
      → (found : Option StoredTransaction) × (buffer : List (Option StoredTransaction))
        × (next_transaction s ≡ (ok found, buffered buffer s))
        × IsNext
            (λ (r : TransactionRow). r.first_seen)
            (λ r. r.id)
            to_stored_transaction
            s.db.transactions
            s.mempool.time.sec
            (last_transaction_dbid s.mempool)
            found
        × Ahead buffer
  next_transaction-IsNext ahead =
      let (buffer, run, ahead') = next_transaction-buffered s.mempool.next_transactions ahead in
      (
        first,
        buffer,
        run,
        following-IsNext (λ (r : TransactionRow). r.first_seen) (λ r. r.id) to_stored_transaction
            s.db.transactions s.mempool.time.sec (last_transaction_dbid s.mempool)
            (s.db.engine.scan_transactions s.db.transactions)
            (λ r i. sound.transactions.visited r s.db.transactions i)
            (λ r i. sound.transactions.visits r s.db.transactions i),
        ahead',
      )
