-- ===== src/Mempool/Buffers/Window.antt =====
-- The buffer of a reader of src/storage/mempool.go as the first entries behind an earlier cursor,
-- and the loop over it.
use x_b10cslashbademeister.Common.{
  ℕ, zero, suc, ◌-◌, ◌≤◌, ◌<◌, ◌≡◌, refl, sym, ap, ◌∙◌, ◌⊎◌, inl, inr, Bool, true, false,
  Option-cases, Bool-cases, Option, none, some, List, [], ◌∷◌, ◌++◌, map, arith, length, take,
  head?, replicate, filter, filter-In, sort_by, sort_by-In, In-sort_by, In-filter, In,
}
use x_b10cslashbademeister.Mempool.Buffers.{
  Found, entry, sentinel, exhausted, scan_buffer, fill_buffer, is_empty,
}
use x_b10cslashbademeister.Mempool.Buffers.Order.{
  earlier, is_behind, Ordered, sort_by-Ordered, filter-sort_by, filter-filter,
}

module _ {R : Type 0} where
  head_filter-take :
      (p : R → Bool) (n : ℕ) (xs : List R) {r : R}
      → head? (filter p (take n xs)) ≡ some r
      → head? (filter p xs) ≡ some r
  unfolding filter
  head_filter-take p zero xs e = cc
  head_filter-take p (suc n) [] e = e
  head_filter-take p (suc n) (x ∷ xs) {r} e =
      ground (arith, λ (q : head? (filter p (take n xs)) ≡ some r). head_filter-take p n xs q)

  length-take_le : (n : ℕ) (xs : List R) → length (take n xs) ≤ n
  length-take_le zero xs = omega arith
  length-take_le (suc n) [] = omega arith
  length-take_le (suc n) (x ∷ xs) = omega (arith, length-take_le n xs)

  take_short : (n : ℕ) (xs : List R) {k : ℕ} → n - length (take n xs) ≡ suc k → take n xs ≡ xs
  take_short zero xs e = absurd (omega arith)
  take_short (suc n) [] e = refl
  take_short (suc n) (x ∷ xs) {k} e = ap (λ l. x ∷ l) (take_short n xs {k = k} (omega arith))

abbrev pub first_of : {R A : Type 0} → (R → A) → List R → Option A
first_of load [] = none
first_of load (r ∷ rows) = some (load r)

abbrev pub reading : {A : Type 0} → Option A → Found A
reading none = sentinel
reading (some a) = entry a

module _ {R A : Type 0} (load : R → A) where
  -- The first `n` rows, and nil for the end where there are fewer.
  abbrev pub window : ℕ → List R → List (Option A)
  window n xs = map some (map load (take n xs)) ++ replicate (n - length (take n xs)) none

  pub first_of-some : (xs : List R) {r : R} → head? xs ≡ some r → first_of load xs ≡ some (load r)
  first_of-some [] e = cc
  first_of-some (x ∷ xs) e = ground arith

  pub first_of-none : (xs : List R) → head? xs ≡ none → first_of load xs ≡ none
  first_of-none [] e = refl
  first_of-none (x ∷ xs) e = cc

  length-map : (xs : List R) → length (map load xs) ≡ length xs
  length-map [] = refl
  length-map (x ∷ xs) = ap suc (length-map xs)

  pub fill_buffer-window :
      (n : ℕ) (xs : List R) → fill_buffer n (map load (take n xs)) ≡ some (window n xs)
  unfolding fill_buffer
  fill_buffer-window n xs = ground (arith, length-map (take n xs), length-take_le n xs)

  full : (n : ℕ) → suc n - 0 ≡ suc n
  full n = omega arith

  pub window_not_empty : (n : ℕ) (xs : List R) → is_empty (window (suc n) xs) ≡ false
  unfolding is_empty
  window_not_empty n [] = rw (full n) refl
  window_not_empty n (x ∷ xs) = refl

  outcome : Option R → ℕ → Found A
  outcome (some r) k = entry (load r)
  outcome none zero = exhausted
  outcome none (suc k) = sentinel

  scan_buffer-outcome :
      (p : R → Bool) (test : A → Bool) (xs : List R) (k : ℕ)
      → ((r : R) → test (load r) ≡ p r)
      → scan_buffer test (map some (map load xs) ++ replicate k none)
        ≡ outcome (head? (filter p xs)) k
  unfolding scan_buffer outcome filter
  scan_buffer-outcome p test [] zero h = refl
  scan_buffer-outcome p test [] (suc k) h = refl
  scan_buffer-outcome p test (x ∷ xs) k h = ground (arith, h x, scan_buffer-outcome p test xs k h)

  outcome-fresh :
      (p : R → Bool) (n : ℕ) (xs : List R)
      → ((r : R) → In r xs → p r ≡ true)
      → outcome (head? (filter p (take (suc n) xs))) (suc n - length (take (suc n) xs))
        ≡ reading (first_of load xs)
  unfolding outcome filter
  outcome-fresh p n [] h = rw (full n) refl
  outcome-fresh p n (x ∷ xs) h = rw (h x (inl refl)) refl

zero_or_suc : (n : ℕ) → (n ≡ 0) ⊎ ((k : ℕ) × (n ≡ suc k))
zero_or_suc zero = inl refl
zero_or_suc (suc n) = inr (n, refl)

module _ {R A : Type 0} (sec id : R → ℕ) (load : R → A) (rows : List R) where
  -- The rows behind a cursor, in order.
  unfoldable pub following : ℕ → ℕ → List R
  following t k = sort_by (earlier sec id) (filter (is_behind sec id t k) rows)

  -- A cursor that is not before another.
  abbrev pub Reached : ℕ → ℕ → ℕ → ℕ → Type 0
  Reached t₀ k₀ t k = (t₀ < t) ⊎ ((t₀ ≡ t) × (k₀ ≤ k))

  -- A buffer of `n` entries that was not filled yet, or was filled at an earlier cursor.
  pub data IsReadAhead (n t k : ℕ) : List (Option A) → Type 0 where
    not_filled : IsReadAhead n t k []
    filled : (t₀ k₀ : ℕ) → Reached t₀ k₀ t k → IsReadAhead n t k (window load n (following t₀ k₀))

  filter-following :
      (t₀ k₀ t k : ℕ)
      → Reached t₀ k₀ t k
      → filter (is_behind sec id t k) (following t₀ k₀) ≡ following t k
  unfolding following
  filter-following t₀ k₀ t k reached =
      filter-sort_by sec id (is_behind sec id t k) (filter (is_behind sec id t₀ k₀) rows)
      ∙ ap (sort_by (earlier sec id)) (
          filter-filter sec id (is_behind sec id t k) (is_behind sec id t₀ k₀) rows
            (λ r e. ground arith))

  -- What the loop over a window of an earlier cursor ends with.
  abbrev pub Scanned : ℕ → ℕ → Found A → Type 0
  Scanned t k found = (found ≡ reading (first_of load (following t k))) ⊎ (found ≡ exhausted)

  pub scan_buffer-Scanned :
      (test : A → Bool) (n t₀ k₀ t k : ℕ)
      → ((r : R) → test (load r) ≡ is_behind sec id t k r)
      → Reached t₀ k₀ t k
      → Scanned t k (scan_buffer test (window load n (following t₀ k₀)))
  unfolding outcome
  scan_buffer-Scanned test n t₀ k₀ t k h reached =
      let xs = following t₀ k₀ in
      let run =
        scan_buffer-outcome load (is_behind sec id t k) test (take n xs) (n - length (take n xs))
          h in
      let same = filter-following t₀ k₀ t k reached in
      elim (Option-cases (head? (filter (is_behind sec id t k) (take n xs)))) [
        | inr (r, e) ↦
            let e' = head_filter-take (is_behind sec id t k) n xs e in
            inl (run ∙ rw (e, first_of-some load (following t k) (ap head? (sym same) ∙ e')) refl)
        | inl e ↦ elim (zero_or_suc (n - length (take n xs))) [
          | inl z ↦ inr (run ∙ rw (e, z) refl)
          | inr (j, z) ↦
              let whole = take_short n xs z in
              let none_left =
                ap head? (sym same)
                ∙ ap (λ l. head? (filter (is_behind sec id t k) l)) (sym whole)
                ∙ e in
              inl (run ∙ rw (e, z, first_of-none load (following t k) none_left) refl)
        ]
      ]

  following-behind : (t k : ℕ) (r : R) → In r (following t k) → is_behind sec id t k r ≡ true
  unfolding following
  following-behind t k r i =
      (filter-In (is_behind sec id t k) r rows (sort_by-In (earlier sec id) r _ i)).1

  pub scan_buffer-fresh :
      (test : A → Bool) (n t k : ℕ)
      → ((r : R) → test (load r) ≡ is_behind sec id t k r)
      → scan_buffer test (window load (suc n) (following t k))
        ≡ reading (first_of load (following t k))
  scan_buffer-fresh test n t k h =
      scan_buffer-outcome load (is_behind sec id t k) test (take (suc n) (following t k)) _ h
      ∙ outcome-fresh load (is_behind sec id t k) n (following t k) (following-behind t k)

-- The entry is that of the first row behind the cursor, or there is none.
pub data IsNext {R A : Type 0} (sec id : R → ℕ) (load : R → A) (table : List R) (t k : ℕ)
    : Option A → Type 0 where
  no_more :
      ((r : R) → In r table → is_behind sec id t k r ≡ false) → IsNext sec id load table t k none
  next :
      (r : R)
      → In r table
      → is_behind sec id t k r ≡ true
      → ((s : R) → In s table → is_behind sec id t k s ≡ true → earlier sec id s r ≡ false)
      → IsNext sec id load table t k (some (load r))

module _ {R A : Type 0} (sec id : R → ℕ) (load : R → A) (table : List R) (t k : ℕ) where
  first_of-IsNext :
      (rows : List R)
      → Ordered sec id rows
      → ((r : R) → In r rows → In r table × (is_behind sec id t k r ≡ true))
      → ((r : R) → In r table → is_behind sec id t k r ≡ true → In r rows)
      → IsNext sec id load table t k (first_of load rows)
  first_of-IsNext [] o sub sup =
      no_more λ r i. elim (Bool-cases (is_behind sec id t k r)) [
        | inl e ↦ elim (sup r i e) [ ]
        | inr e ↦ e
      ]
  first_of-IsNext (r ∷ rows) o sub sup =
      next r (sub r (inl refl)).0 (sub r (inl refl)).1
        λ s i e. elim (sup s i e) [ inl q ↦ rw q (ground arith) | inr j ↦ o.0 s j ]

  -- On a scan of the table, whatever its order.
  pub following-IsNext :
      (scanned : List R)
      → ((r : R) → In r scanned → In r table)
      → ((r : R) → In r table → In r scanned)
      → IsNext sec id load table t k (first_of load (following sec id load scanned t k))
  unfolding following
  following-IsNext scanned sub sup =
      first_of-IsNext (sort_by (earlier sec id) (filter (is_behind sec id t k) scanned))
        (sort_by-Ordered sec id (filter (is_behind sec id t k) scanned))
        (λ r i.
          let j = filter-In (is_behind sec id t k) r scanned (sort_by-In (earlier sec id) r _ i) in
          (sub r j.0, j.1))
        (λ r i e.
          In-sort_by (earlier sec id) r _ (In-filter (is_behind sec id t k) r scanned (sup r i) e))

-- The buffer stays good for a later cursor, of the same table.
pub later-IsReadAhead :
    {R A : Type 0} (sec id : R → ℕ) (load : R → A) (rows : List R) (n t k t' k' : ℕ)
    {buffer : List (Option A)}
    → Reached sec id load rows t k t' k'
    → IsReadAhead sec id load rows n t k buffer
    → IsReadAhead sec id load rows n t' k' buffer
later-IsReadAhead sec id load rows n t k t' k' later not_filled = not_filled
later-IsReadAhead sec id load rows n t k t' k' later (filled t₀ k₀ reached) =
    filled t₀ k₀ (ground arith)
