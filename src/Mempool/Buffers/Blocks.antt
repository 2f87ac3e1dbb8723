-- ===== src/Mempool/Buffers/Blocks.antt =====
-- `NextBlock` with its buffer, against the rows behind the cursor.
use x_b10cslashbademeister.Common.{
  ℕ, suc, ◌≡◌, refl, inl, inr, Bool, true, false, Option-cases, Option, List, [], ◌∷◌, map, arith,
  ltb, ◌&&◌, filter, filter-In, In-filter, take,
}
use x_b10cslashbademeister.Types.{Time, StoredBlock}
use x_b10cslashbademeister.Errors.{ok}
use x_b10cslashbademeister.Storage.Database.{Database, BlockRow, format_query}
use x_b10cslashbademeister.Storage.Database.Runs.{IsSound, statement_lem}
use x_b10cslashbademeister.Storage.Blocks.{
  to_stored_block, query_blocks, next_best_blocks, earlier_block,
}
use x_b10cslashbademeister.Mempool.{Session}
use x_b10cslashbademeister.Mempool.Buffers.{
  is_next, last_block_dbid, set_blocks, fill_blocks, pick_block, reload_blocks, store_blocks,
  is_empty, next_block_from, next_block,
}
use x_b10cslashbademeister.Mempool.Buffers.Order.{is_behind}
use x_b10cslashbademeister.Mempool.Buffers.Window.{
  first_of, reading, IsNext, following-IsNext, window, fill_buffer-window, window_not_empty,
  following, IsReadAhead, not_filled, filled, Reached, Scanned, scan_buffer-Scanned,
  scan_buffer-fresh,
}

-- The rows that NextBestBlocks reads behind a cursor, on the order of the scan.
abbrev pub best_rows : List BlockRow → List BlockRow
best_rows rows = filter (λ r. r.is_best) rows

filter-and :
    {R : Type 0} (p q : R → Bool) (xs : List R)
    → filter (λ r. p r && q r) xs ≡ filter p (filter q xs)
unfolding filter
filter-and p q [] = refl
filter-and p q (x ∷ xs) = ground (arith, filter-and p q xs)

abbrev pub blocks_behind : Database → ℕ → ℕ → List BlockRow
blocks_behind db =
    following (λ r. r.first_seen) (λ r. r.id) to_stored_block
      (best_rows (db.engine.scan_blocks db.blocks))

positive : (n : ℕ) → ltb 0 (suc n) ≡ true
positive n = ground arith

next_best_blocks_lem :
    (db : Database) (t : Time) (k n : ℕ)
    → IsSound db.engine
    → next_best_blocks t k (suc n) db
      ≡ (ok (map to_stored_block (take (suc n) (blocks_behind db t.sec k))), db)
unfolding next_best_blocks query_blocks format_query following earlier_block
next_best_blocks_lem db t k n sound =
    rw
      (
        statement_lem,
        sound.no_faults,
        positive n,
        filter-and (is_behind (λ (r : BlockRow). r.first_seen) (λ r. r.id) t.sec k) (λ r. r.is_best)
            (db.engine.scan_blocks db.blocks),
      )
      refl

-- The session with another buffer.
abbrev pub buffered : List (Option StoredBlock) → Session → Session
buffered buffer s = record s { mempool = record s.mempool { next_blocks = buffer } }

module _ (s : Session) (n : ℕ) (sound : IsSound s.db.engine) (whole : s.mempool.time.nsec ≡ 0)
    (size : s.mempool.next_block_buffer_size ≡ suc n) where
  abbrev rows : List BlockRow
  rows = blocks_behind s.db s.mempool.time.sec (last_block_dbid s.mempool)

  abbrev first : Option StoredBlock
  first = first_of to_stored_block rows

  test-is_behind :
      (r : BlockRow)
      → is_next s.mempool.time
          (last_block_dbid s.mempool)
          (to_stored_block r).first_seen
          (to_stored_block r).dbid
        ≡ is_behind
            (λ (q : BlockRow). q.first_seen)
            (λ q. q.id)
            s.mempool.time.sec
            (last_block_dbid s.mempool)
            r
  unfolding is_next to_stored_block
  test-is_behind r = ground arith

  refilled : fill_blocks (buffered [] s) ≡ (ok tt, buffered (window to_stored_block (suc n) rows) s)
  unfolding fill_blocks reload_blocks store_blocks is_empty set_blocks last_block_dbid
  refilled =
      rw
        (
          size,
          next_best_blocks_lem s.db s.mempool.time (last_block_dbid s.mempool) n sound,
          fill_buffer-window to_stored_block (suc n) rows,
        )
        refl

  picked_fresh :
      pick_block (buffered (window to_stored_block (suc n) rows) s).mempool ≡ reading first
  unfolding pick_block last_block_dbid
  picked_fresh =
      scan_buffer-fresh (λ (q : BlockRow). q.first_seen) (λ q. q.id) to_stored_block
        (best_rows (s.db.engine.scan_blocks s.db.blocks)) _ n s.mempool.time.sec
        (last_block_dbid s.mempool) test-is_behind

  -- From an empty buffer one call is enough.
  from_empty :
      (fuel : ℕ)
      → next_block_from (suc fuel) (buffered [] s)
        ≡ (ok first, buffered (window to_stored_block (suc n) rows) s)
  unfolding next_block_from
  from_empty fuel = elim (Option-cases first) [
    | inl e ↦ ground (arith, refilled, picked_fresh, e)
    | inr (r, e) ↦ ground (arith, refilled, picked_fresh, e)
  ]

  kept :
      (buffer : List (Option StoredBlock))
      → is_empty buffer ≡ false
      → fill_blocks (buffered buffer s) ≡ (ok tt, buffered buffer s)
  unfolding fill_blocks
  kept buffer e = rw e refl

  -- A buffer that was filled at an earlier cursor.
  picked_Scanned :
      (t₀ k₀ : ℕ)
      → Reached
          (λ (q : BlockRow). q.first_seen)
          (λ q. q.id)
          to_stored_block
          (best_rows (s.db.engine.scan_blocks s.db.blocks))
          t₀
          k₀
          s.mempool.time.sec
          (last_block_dbid s.mempool)
      → Scanned
          (λ (q : BlockRow). q.first_seen)
          (λ q. q.id)
          to_stored_block
          (best_rows (s.db.engine.scan_blocks s.db.blocks))
          s.mempool.time.sec
          (last_block_dbid s.mempool)
          (pick_block
            (buffered (window to_stored_block (suc n) (blocks_behind s.db t₀ k₀)) s).mempool)
  unfolding pick_block last_block_dbid
  picked_Scanned t₀ k₀ reached =
      scan_buffer-Scanned (λ (q : BlockRow). q.first_seen) (λ q. q.id) to_stored_block
        (best_rows (s.db.engine.scan_blocks s.db.blocks))
        (λ b. is_next s.mempool.time (last_block_dbid s.mempool) b.first_seen b.dbid) (suc n) t₀ k₀
        s.mempool.time.sec (last_block_dbid s.mempool) test-is_behind reached

  abbrev pub Ahead : List (Option StoredBlock) → Type 0
  Ahead =
      IsReadAhead (λ (r : BlockRow). r.first_seen) (λ r. r.id) to_stored_block
        (best_rows (s.db.engine.scan_blocks s.db.blocks)) (suc n) s.mempool.time.sec
        (last_block_dbid s.mempool)

  next_block-buffered :
      (buffer : List (Option StoredBlock))
      → Ahead buffer
      → (buffer' : List (Option StoredBlock)) × (next_block (buffered buffer s)
          ≡ (ok first, buffered buffer' s))
        × Ahead buffer'
  unfolding next_block next_block_from set_blocks
  next_block-buffered buffer not_filled = (
    _,
    from_empty 1,
    filled s.mempool.time.sec (last_block_dbid s.mempool) (inr (refl, omega arith)),
  )
  next_block-buffered buffer (filled t₀ k₀ reached) =
      let b = window to_stored_block (suc n) (blocks_behind s.db t₀ k₀) in
      let full = kept b (window_not_empty to_stored_block n (blocks_behind s.db t₀ k₀)) in
      elim (picked_Scanned t₀ k₀ reached) [
        | inl q ↦ (b, ground (arith, full, q, Option-cases first), filled t₀ k₀ reached)
        | inr q ↦ (
          _,
          ground (arith, full, q, from_empty 0),
          filled s.mempool.time.sec (last_block_dbid s.mempool) (inr (refl, omega arith)),
        )
      ]

  -- On a driver that fails no statement, with a buffer of at least one entry that was filled at an
  -- earlier cursor or is empty, and at a time of whole seconds, `NextBlock` returns the first
  -- stored block of the consensus chain behind the cursor, or nil where there is none. It changes
  -- the buffer alone, which stays good for the cursors from there on.
  pub next_block-IsNext :
      Ahead s.mempool.next_blocks
      → (found : Option StoredBlock) × (buffer : List (Option StoredBlock)) × (next_block s
          ≡ (ok found, buffered buffer s))
        × IsNext
            (λ (r : BlockRow). r.first_seen)
            (λ r. r.id)
            to_stored_block
            (best_rows s.db.blocks)
            s.mempool.time.sec
            (last_block_dbid s.mempool)
            found
        × Ahead buffer
  next_block-IsNext ahead =
      let (buffer, run, ahead') = next_block-buffered s.mempool.next_blocks ahead in
      (
        first,
        buffer,
        run,
        following-IsNext (λ (r : BlockRow). r.first_seen) (λ r. r.id) to_stored_block
            (best_rows s.db.blocks) s.mempool.time.sec (last_block_dbid s.mempool)
            (best_rows (s.db.engine.scan_blocks s.db.blocks))
            (λ r i.
              let j = filter-In (λ q. q.is_best) r (s.db.engine.scan_blocks s.db.blocks) i in
              In-filter (λ q. q.is_best) r s.db.blocks (sound.blocks.visited r s.db.blocks j.0) j.1)
            (λ r i.
              let j = filter-In (λ q. q.is_best) r s.db.blocks i in
              In-filter (λ q. q.is_best) r (s.db.engine.scan_blocks s.db.blocks)
                (sound.blocks.visits r s.db.blocks j.0) j.1),
        ahead',
      )
