-- ===== src/Storage/Chain/Heights.antt =====
-- The scan of `ReorgBase` over the heights: it ends, and what it has seen.
use x_b10cslashbademeister.Common.{
  ℕ, zero, suc, ◌+◌, ◌%◌, ◌^◌, ◌≤◌, ◌<◌, ◌≡◌, refl, sym, ap, ◌∙◌, ◌⊎◌, inl, inr, Bool, true, false,
  Bool-cases, List, [], ◌∷◌, length, ltb, leb, ◌==◌, arith, map, In, filter, filter-In, In-filter,
  sort_by, sort_by-In, In-sort_by, map-In, In-map, if◌then◌else◌,
}
use x_b10cslashbademeister.Types.{StoredBlock}
use x_b10cslashbademeister.Errors.{ok}
use x_b10cslashbademeister.Storage.Database.{BlockRow, Database, Exec, pure, format_query}
use x_b10cslashbademeister.Storage.Database.Runs.{IsSound, statement_lem}
use x_b10cslashbademeister.Storage.Blocks.{to_stored_block, query_blocks}
use x_b10cslashbademeister.Storage.Chain.{last_best, earlier_first_seen, blocks_at, scan_heights}

-- The stored blocks of a height, as the query returns them.
unfoldable pub found_at : Database → ℕ → List StoredBlock
found_at db h = map to_stored_block (
    sort_by earlier_first_seen
      (filter (λ (r : BlockRow). r.height == h) (db.engine.scan_blocks db.blocks)))

blocks_at-found_at :
    (db : Database) (h : ℕ) → IsSound db.engine → blocks_at h db ≡ (ok (found_at db h), db)
unfolding blocks_at query_blocks format_query found_at
blocks_at-found_at db h sound = rw (statement_lem, sound.no_faults) refl

found_at-In :
    (db : Database) (h : ℕ) (b : StoredBlock)
    → IsSound db.engine
    → In b (found_at db h)
    → (r : BlockRow) × In r db.blocks × (r.height ≡ h) × (b ≡ to_stored_block r)
unfolding found_at
found_at-In db h b sound i =
    let visited : List BlockRow = db.engine.scan_blocks db.blocks in
    let (r, j, e) = map-In to_stored_block b _ i in
    let (k, q) = filter-In _ r visited (sort_by-In earlier_first_seen r _ j) in
    (r, sound.blocks.visited r db.blocks k, ground (arith, q), e)

pub In-found_at :
    (db : Database) (h : ℕ) (r : BlockRow)
    → IsSound db.engine
    → In r db.blocks
    → r.height ≡ h
    → In (to_stored_block r) (found_at db h)
unfolding found_at
In-found_at db h r sound i e = In-map to_stored_block r _ (
    In-sort_by earlier_first_seen r _
      (In-filter _ r _ (sound.blocks.visits r db.blocks i) (ground (arith, e))))

-- How many rows are not below a height.
pub above : ℕ → List BlockRow → ℕ
above k [] = 0
above k (r ∷ rows) = let n = above k rows in if leb k r.height then suc n else n

pub above-length : (k : ℕ) (rows : List BlockRow) → above k rows ≤ length rows
unfolding above
above-length k [] = omega arith
above-length k (r ∷ rows) = ground (arith, above-length k rows)

above-suc : (k : ℕ) (rows : List BlockRow) → above (suc k) rows ≤ above k rows
unfolding above
above-suc k [] = omega arith
above-suc k (r ∷ rows) = ground (arith, above-suc k rows)

above-In :
    (k : ℕ) (r : BlockRow) (rows : List BlockRow)
    → In r rows
    → r.height ≡ k
    → above (suc k) rows < above k rows
unfolding above
above-In k r [] i e = elim i [ ]
above-In k r (x ∷ rows) (inl q) e = ground (arith, above-suc k rows, q, e)
above-In k r (x ∷ rows) (inr i) e = ground (arith, above-In k r rows i e)

abbrev IsMarked : StoredBlock → Type 0
IsMarked b = b.is_best ≡ true

picked :
    (best b : StoredBlock) (marked : Bool)
    → ((marked ≡ true) × ((if marked then b else best) ≡ b))
      ⊎ ((marked ≡ false) × ((if marked then b else best) ≡ best))
picked best b true = inl (refl, refl)
picked best b false = inr (refl, refl)

last_best-cases :
    (bs : List StoredBlock) (best : StoredBlock)
    → ((last_best bs best ≡ best) × ((b : StoredBlock) → In b bs → b.is_best ≡ false))
      ⊎ (In (last_best bs best) bs × IsMarked (last_best bs best))
unfolding last_best
last_best-cases [] best = inl (refl, λ b i. absurd i)
last_best-cases (b ∷ bs) best =
    let next : StoredBlock = if b.is_best then b else best in
    elim (last_best-cases bs next) [
      | inr (i, q) ↦ inr (inr i, q)
      | inl (q, unmarked) ↦ elim (picked best b b.is_best) [
        | inl (e, f) ↦ inr (inl (q ∙ f), ap (λ (x : StoredBlock). x.is_best) (q ∙ f) ∙ e)
        | inr (e, f) ↦ inl (
          q ∙ f,
          λ c j. elim j [
            | inl same ↦ ap (λ (x : StoredBlock). x.is_best) same ∙ e
            | inr k ↦ unmarked c k
          ],
        )
      ]
    ]

-- Among the stored blocks from the height `k` on and below `stop`: none is marked best, or `last`
-- is one that is, and none that is marked is higher.
pub data Top (db : Database) (k stop : ℕ) (best last : StoredBlock) : Type 0 where
  unmarked :
      last ≡ best
      → ((r : BlockRow) → In r db.blocks → k ≤ r.height → r.height < stop → r.is_best ≡ false)
      → Top db k stop best last
  marked :
      (r : BlockRow)
      → In r db.blocks
      → last ≡ to_stored_block r
      → r.is_best ≡ true
      → k ≤ r.height
      → r.height < stop
      → ((s : BlockRow) → In s db.blocks → s.is_best ≡ true → s.height < stop → s.height ≤ r.height)
      → Top db k stop best last

-- What the scan from the height `k` on has seen: two blocks or more on every height below `end`,
-- fewer on `end` itself.
pub record Scan (db : Database) (k : ℕ) (best last : StoredBlock) : Type 0 where
  pub end : ℕ
  pub from_start : k ≤ end
  pub crowded : (h : ℕ) → k ≤ h → h < end → 2 ≤ length (found_at db h)
  pub few : length (found_at db end) < 2
  pub top : Top db k (suc end) best last

abbrev branch : ℕ → ℕ → StoredBlock → Bool → Exec StoredBlock
branch fuel k best few = elim few as (λ x. Exec StoredBlock) [
  | true ↦ pure best
  | false ↦ scan_heights fuel ((k + 1) % 2 ^ 32) best
]

module _ (db : Database) (sound : IsSound db.engine) where
  -- One height more, at the low end.
  Top-step :
      (k stop : ℕ) (best last : StoredBlock)
      → k < stop
      → Top db (suc k) stop (last_best (found_at db k) best) last
      → Top db k stop best last
  unfolding to_stored_block
  Top-step k stop best last lt (marked r i q t low high highest) =
      marked r i q t (omega arith) high highest
  Top-step k stop best last lt (unmarked q none_above) =
      elim (last_best-cases (found_at db k) best) [
        | inl (e, none_here) ↦ unmarked (q ∙ e) (λ r i low high. elim (Bool-cases (r.height == k)) [
          | inl here ↦
              none_here (to_stored_block r) (In-found_at db k r sound i (ground (arith, here)))
          | inr not_here ↦ none_above r i (ground (arith, not_here)) high
        ])
        | inr (i, t) ↦
            let (r, j, e, f) = found_at-In db k (last_best (found_at db k) best) sound i in
            marked r j (q ∙ f) (ap (λ (b : StoredBlock). b.is_best) (sym f) ∙ t) (omega arith)
              (omega arith)
              (λ s l u high. elim (Bool-cases (leb (suc k) s.height)) [
                | inl higher ↦
                    absurd (ground (arith, none_above s l (ground (arith, higher)) high, u))
                | inr lower ↦ ground (arith, lower)
              ])
      ]

  round-few :
      (fuel k : ℕ) (best : StoredBlock) (bs : List StoredBlock)
      → blocks_at k db ≡ (ok bs, db)
      → ltb (length bs) 2 ≡ true
      → scan_heights (suc fuel) k best db ≡ (ok (last_best bs best), db)
  unfolding scan_heights
  round-few fuel k best bs e f = rw e (ap (λ t. branch fuel k (last_best bs best) t db) f)

  round-crowded :
      (fuel k : ℕ) (best : StoredBlock) (bs : List StoredBlock)
      → blocks_at k db ≡ (ok bs, db)
      → ltb (length bs) 2 ≡ false
      → scan_heights (suc fuel) k best db
        ≡ scan_heights fuel ((k + 1) % 2 ^ 32) (last_best bs best) db
  unfolding scan_heights
  round-crowded fuel k best bs e f = rw e (ap (λ t. branch fuel k (last_best bs best) t db) f)

  row_of_two :
      (h : ℕ) (bs : List StoredBlock)
      → bs ≡ found_at db h
      → 2 ≤ length bs
      → (r : BlockRow) × In r db.blocks × (r.height ≡ h)
  row_of_two h [] e two = absurd (omega arith)
  row_of_two h (b ∷ bs) e two =
      let (r, i, f, q) = found_at-In db h b sound (rw (← e) (inl refl)) in (r, i, f)

  -- The scan ends, with fuel for the rows that are not below its height.
  pub scan_heights-Scan :
      ((r : BlockRow) → In r db.blocks → suc r.height < 2 ^ 32)
      → (fuel k : ℕ) (best : StoredBlock) → above k db.blocks < fuel
      → (last : StoredBlock) × Scan db k best last × (scan_heights fuel k best db ≡ (ok last, db))
  scan_heights-Scan low zero k best enough = absurd (omega arith)
  scan_heights-Scan low (suc fuel) k best enough =
      elim (Bool-cases (ltb (length (found_at db k)) 2)) [
        | inl e ↦ (
          last_best (found_at db k) best,
          record {
            end = k;
            from_start = omega arith;
            crowded = λ h p q. absurd (omega arith);
            few = ground (arith, e);
            top =
                Top-step k (suc k) best (last_best (found_at db k) best) (omega arith)
                  (unmarked refl (λ r i p q. absurd (omega arith)));
          },
          round-few fuel k best (found_at db k) (blocks_at-found_at db k sound) e,
        )
        | inr e ↦
            let (r, i, f) = row_of_two k (found_at db k) refl (ground (arith, e)) in
            let less = above-In k r db.blocks i f in
            let (last, scan, q) =
              scan_heights-Scan low fuel (suc k) (last_best (found_at db k) best)
                (omega (arith, less)) in
            let bound = low r i in
            let next : (k + 1) % 2 ^ 32 ≡ suc k = omega (arith, bound, f) in
            (
              last,
              record {
                end = scan.end;
                from_start = omega (arith, scan.from_start);
                crowded = λ h p u. elim (Bool-cases (h == k)) [
                  | inl here ↦ ground (arith, here, e)
                  | inr later ↦ scan.crowded h (ground (arith, later)) u
                ];
                few = scan.few;
                top = Top-step k (suc scan.end) best last (omega (arith, scan.from_start)) scan.top;
              },
              round-crowded fuel k best (found_at db k) (blocks_at-found_at db k sound) e
                  ∙ rw next q,
            )
      ]
