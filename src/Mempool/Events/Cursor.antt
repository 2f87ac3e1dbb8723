-- ===== src/Mempool/Events/Cursor.antt =====
-- What is still behind the cursors of a mempool, and that it gets less with every event.
use x_b10cslashbademeister.Common.{
  ℕ, ◌≤◌, ◌<◌, ◌≡◌, ap, inl, inr, Bool, true, false, List, [], ◌∷◌, arith, length, filter, In,
}
use x_b10cslashbademeister.Mempool.Buffers.Order.{is_behind}

module _ {R : Type 0} where
  unfoldable pub count : (R → Bool) → List R → ℕ
  unfolding filter
  count p rows = length (filter p rows)

  pub count_le :
      (p q : R → Bool) (rows : List R)
      → ((r : R) → p r ≡ true → q r ≡ true)
      → count p rows ≤ count q rows
  unfolding count filter
  count_le p q [] h = omega arith
  count_le p q (r ∷ rows) h = ground (arith, h r, count_le p q rows h)

  pub count_lt :
      (p q : R → Bool) (rows : List R) (r : R)
      → ((s : R) → p s ≡ true → q s ≡ true)
      → In r rows
      → q r ≡ true
      → p r ≡ false
      → count p rows < count q rows
  unfolding count filter
  count_lt p q (s ∷ rows) r h (inl e) t f = ground (arith, count_le p q rows h, ap p e, ap q e)
  count_lt p q (s ∷ rows) r h (inr i) t f = ground (arith, h s, count_lt p q rows r h i t f)
  count_lt p q [] r h i t f = elim i [ ]

  pub count-length : (p : R → Bool) (rows : List R) → count p rows ≤ length rows
  unfolding count filter
  count-length p [] = omega arith
  count-length p (r ∷ rows) = ground (arith, count-length p rows)

module _ {R : Type 0} (sec id : R → ℕ) (table : List R) where
  unfoldable pub left : ℕ → ℕ → ℕ
  unfolding count
  left t k = count (is_behind sec id t k) table

  pub left-later : (t k t' : ℕ) → t ≤ t' → left t' k ≤ left t k
  unfolding left
  left-later t k t' le =
      count_le (is_behind sec id t' k) (is_behind sec id t k) table λ r e. ground arith

  pub left-taken :
      (t k : ℕ) (r : R)
      → In r table
      → is_behind sec id t k r ≡ true
      → left (sec r) (id r) < left t k
  unfolding left
  left-taken t k r i e =
      count_lt (is_behind sec id (sec r) (id r)) (is_behind sec id t k) table r
        (λ s q. ground arith) i e (ground arith)
