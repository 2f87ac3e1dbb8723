-- ===== src/Storage/Blocks/Latest.antt =====
-- `BestBlockNow` against the table of blocks.
use x_b10cslashbademeister.Common.{
  ◌≤◌, ◌≡◌, refl, ap, inl, inr, Bool-cases, true, false, Option, none, some, Option-cases, List, [],
  ◌∷◌, ltb, arith, head?, take, map, In, filter, filter-In, In-filter, sort_by, insert_by,
  sort_by-In, In-sort_by,
}
use x_b10cslashbademeister.Types.{StoredBlock}
use x_b10cslashbademeister.Errors.{Result, ok}
use x_b10cslashbademeister.Storage.Database.{Database, BlockRow, format_query}
use x_b10cslashbademeister.Storage.Database.Runs.{IsScan, IsSound, statement_lem}
use x_b10cslashbademeister.Storage.Blocks.{
  to_stored_block, later_block, query_blocks, query_block, best_block_now,
}

In-head : (r : BlockRow) (rows : List BlockRow) → In r rows → (s : BlockRow) × (head? rows ≡ some s)
In-head r [] i = absurd i
In-head r (s ∷ rows) i = (s, refl)

head-In : (rows : List BlockRow) (r : BlockRow) → head? rows ≡ some r → In r rows
head-In [] r e = absurd (cc)
head-In (x ∷ rows) r e = inl (ground arith)

head-insert_by :
    (q : BlockRow) (rows : List BlockRow) (r : BlockRow)
    → head? (insert_by later_block q rows) ≡ some r
    → (q.first_seen ≤ r.first_seen)
      × ((y : BlockRow) → head? rows ≡ some y → y.first_seen ≤ r.first_seen)
unfolding insert_by later_block
head-insert_by q [] r e = (ground (arith, e), λ y f. absurd (cc))
head-insert_by q (x ∷ rows) r e = elim (Bool-cases (ltb q.first_seen x.first_seen)) [
  | inl l ↦ (ground (arith, e, l), λ y f. ground (arith, e, f, l))
  | inr l ↦ (ground (arith, e, l), λ y f. ground (arith, e, f, l))
]

-- The first of the sorted rows is not earlier than any other.
sorted-latest :
    (rows : List BlockRow) (r s : BlockRow)
    → head? (sort_by later_block rows) ≡ some r
    → In s rows
    → s.first_seen ≤ r.first_seen
unfolding sort_by
sorted-latest [] r s e i = absurd i
sorted-latest (q ∷ rows) r s e (inl f) =
    let first = head-insert_by q (sort_by later_block rows) r e in rw f first.0
sorted-latest (q ∷ rows) r s e (inr i) =
    let first = head-insert_by q (sort_by later_block rows) r e in
    let (y, f) = In-head s (sort_by later_block rows) (In-sort_by later_block s rows i) in
    omega (arith, first.1 y f, sorted-latest rows y s f i)

-- What BestBlockNow finds: no block that is marked best, or one that none of these is later than.
pub data Latest (rows : List BlockRow) : Option StoredBlock → Type 0 where
  no_best : ((s : BlockRow) → In s rows → s.is_best ≡ false) → Latest rows none
  best :
      (r : BlockRow)
      → In r rows
      → r.is_best ≡ true
      → ((s : BlockRow) → In s rows → s.is_best ≡ true → s.first_seen ≤ r.first_seen)
      → Latest rows (some (to_stored_block r))

unfoldable pub latest_of : List BlockRow → Option StoredBlock
latest_of rows = elim (head? rows) [ none ↦ none | some r ↦ some (to_stored_block r) ]

pub head-take : (rows : List BlockRow) → head? (map to_stored_block (take 1 rows)) ≡ latest_of rows
unfolding latest_of
head-take [] = refl
head-take (r ∷ rows) = refl

unfoldable pub sorted_best : Database → List BlockRow
sorted_best db = sort_by later_block (filter (λ r. r.is_best) (db.engine.scan_blocks db.blocks))

best_block_now-latest_of :
    (db : Database) → IsSound db.engine → best_block_now db ≡ (ok (latest_of (sorted_best db)), db)
unfolding best_block_now query_block query_blocks format_query sorted_best
best_block_now-latest_of db sound =
    rw (statement_lem, sound.no_faults)
      (ap
        (λ (b : Option StoredBlock).
          let r : Result (Option StoredBlock) × Database = (ok b, db) in r)
        (head-take (sorted_best db)))

pub sorted_best-Latest :
    (db : Database) → IsScan db.engine.scan_blocks → Latest db.blocks (latest_of (sorted_best db))
unfolding sorted_best latest_of
sorted_best-Latest db fair =
    let visited : List BlockRow = filter (λ r. r.is_best) (db.engine.scan_blocks db.blocks) in
    let visits : (s : BlockRow) → In s db.blocks → s.is_best ≡ true → In s visited =
      λ s i t. In-filter _ s _ (fair.visits s db.blocks i) t in
    elim (Option-cases (head? (sort_by later_block visited))) [
      | inl e ↦
          rw (e, latest_of)
            (no_best (λ s i. elim (Bool-cases s.is_best) [
              | inr f ↦ f
              | inl t ↦
                  let (r, g) =
                    In-head s (sort_by later_block visited)
                      (In-sort_by later_block s visited (visits s i t)) in
                  absurd (cc (e, g))
            ]))
      | inr (r, e) ↦
          let found = filter-In _ r _ (sort_by-In later_block r visited (head-In _ r e)) in
          rw (e, latest_of)
            (best r (fair.visited r db.blocks found.0) found.1
              (λ s i t. sorted-latest visited r s e (visits s i t)))
    ]

-- BestBlockNow changes nothing and returns a block that is marked best, such that no other of
-- these has been seen later, or nil where none is marked.
pub best_block_now-Latest :
    (db : Database)
    → IsSound db.engine
    → (b : Option StoredBlock) × (best_block_now db ≡ (ok b, db)) × Latest db.blocks b
best_block_now-Latest db sound = (
  latest_of (sorted_best db),
  best_block_now-latest_of db sound,
  sorted_best-Latest db sound.blocks,
)
