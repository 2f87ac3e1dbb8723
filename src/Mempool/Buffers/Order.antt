-- ===== src/Mempool/Buffers/Order.antt =====
-- Rows in the order of a time and an id, and the rows behind a cursor, which the queries
-- NextTransactions and NextBestBlocks of src/storage select.
use x_b10cslashbademeister.Common.{
  ℕ, ◌≡◌, refl, inl, inr, Bool, true, false, ◌&&◌, ◌||◌, Bool-cases, List, [], ◌∷◌, arith, ltb,
  ◌==◌, if◌then◌else◌, filter, insert_by, insert_by-In, filter-In, sort_by, In,
}

module _ {R : Type 0} (sec id : R → ℕ) where
  abbrev pub earlier : R → R → Bool
  earlier r s = ltb (sec r) (sec s) || (sec r == sec s && ltb (id r) (id s))

  -- Behind the cursor: at a later time, or at its time with a larger id.
  abbrev pub is_behind : ℕ → ℕ → R → Bool
  is_behind t k r = ltb t (sec r) || (sec r == t && ltb k (id r))

  -- What is not before what it follows.
  abbrev pub Ordered : List R → Type 0
  Ordered [] = Unit
  Ordered (x ∷ xs) = ((y : R) → In y xs → earlier y x ≡ false) × Ordered xs

  earlier_trans : (x y z : R) → earlier y x ≡ false → earlier z y ≡ false → earlier z x ≡ false
  earlier_trans x y z e f = ground arith

  kept_behind :
      (x y : R) (ys : List R)
      → earlier y x ≡ false
      → Ordered (y ∷ ys)
      → (z : R) → In z (y ∷ ys)
      → earlier z x ≡ false
  kept_behind x y ys e o z (inl q) = rw q e
  kept_behind x y ys e o z (inr j) = earlier_trans x y z e (o.0 z j)

  insert_by-Ordered : (x : R) (xs : List R) → Ordered xs → Ordered (insert_by earlier x xs)
  unfolding insert_by
  insert_by-Ordered x [] o = ((λ y i. elim i [ ]), tt)
  insert_by-Ordered x (y ∷ ys) o = elim (Bool-cases (earlier y x)) [
    | inl e ↦ rw e (
      (λ z i. elim (insert_by-In earlier z x ys i) [
        | inl q ↦ rw q (ground arith)
        | inr j ↦ o.0 z j
      ]),
      insert_by-Ordered x ys o.1,
    )
    | inr e ↦ rw e (kept_behind x y ys e o, o)
  ]

  pub sort_by-Ordered : (xs : List R) → Ordered (sort_by earlier xs)
  unfolding sort_by
  sort_by-Ordered [] = tt
  sort_by-Ordered (x ∷ xs) = insert_by-Ordered x (sort_by earlier xs) (sort_by-Ordered xs)

  -- Insertion before everything in a list.
  insert_by-first :
      (x : R) (xs : List R)
      → ((y : R) → In y xs → earlier y x ≡ false)
      → insert_by earlier x xs ≡ x ∷ xs
  unfolding insert_by
  insert_by-first x [] h = refl
  insert_by-first x (y ∷ ys) h = rw (h y (inl refl))

  filter-insert_by :
      (p : R → Bool) (x : R) (xs : List R)
      → Ordered xs
      → filter p (insert_by earlier x xs)
        ≡ (if p x then insert_by earlier x (filter p xs) else filter p xs)
  unfolding filter insert_by
  filter-insert_by p x [] o = refl
  filter-insert_by p x (y ∷ ys) o = elim (Bool-cases (earlier y x)) [
    | inl e ↦ ground (arith, e, filter-insert_by p x ys o.1)
    | inr e ↦
        let first : insert_by earlier x (filter p (y ∷ ys)) ≡ x ∷ filter p (y ∷ ys) =
          insert_by-first x (filter p (y ∷ ys))
            λ z i. kept_behind x y ys e o z (filter-In p z (y ∷ ys) i).0 in
        ground (arith, e, first)
  ]

  -- A filter on what is sorted is sorted.
  pub filter-sort_by :
      (p : R → Bool) (xs : List R) → filter p (sort_by earlier xs) ≡ sort_by earlier (filter p xs)
  unfolding filter sort_by
  filter-sort_by p [] = refl
  filter-sort_by p (x ∷ xs) =
      ground
        (arith, filter-insert_by p x (sort_by earlier xs) (sort_by-Ordered xs), filter-sort_by p xs)

  pub filter-filter :
      (p q : R → Bool) (xs : List R)
      → ((r : R) → p r ≡ true → q r ≡ true)
      → filter p (filter q xs) ≡ filter p xs
  unfolding filter
  filter-filter p q [] h = refl
  filter-filter p q (x ∷ xs) h = ground (arith, h x, filter-filter p q xs h)
