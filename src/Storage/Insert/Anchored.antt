-- ===== src/Storage/Insert/Anchored.antt =====
-- What the check of `insertBlock` (storage_block.go) asks of a block, and tables of blocks in which
-- every row passed it.
use mathlib.Core.List.{append_assoc, append-nil}
use x_b10cslashbademeister.Common.{
  ℕ, ◌+◌, ◌%◌, ◌^◌, ◌≡◌, refl, sym, ap, ◌∙◌, inl, inr, false, List, [], ◌∷◌, ◌++◌, In, ltb, ◌&&◌,
  Bool-cases,
}
use x_b10cslashbademeister.Types.{Hash32, zero_hash, hash_eq}
use x_b10cslashbademeister.Storage.Database.{BlockRow}
use x_b10cslashbademeister.Storage.Insert.{lower_block_first_seen}
use x_b10cslashbademeister.Storage.Insert.Rows.{lowered, lower-In}

abbrev pub NoneBest : List BlockRow → Type 0
NoneBest rows = (s : BlockRow) → In s rows → s.is_best ≡ false

-- A block may be added to the rows: its parent is the zero hash, or no row is marked best, or a row
-- is its parent, and its height is one more, as a uint32.
pub data Rests (rows : List BlockRow) (parent : Hash32) (height : ℕ) : Type 0 where
  on_zero : parent ≡ zero_hash → Rests rows parent height
  first : NoneBest rows → Rests rows parent height
  above :
      (p : BlockRow)
      → In p rows
      → p.hash ≡ parent
      → height ≡ (p.height + 1) % 2 ^ 32
      → Rests rows parent height

-- Every row rests on those before it, which are the first list and the rows in front of it.
abbrev pub Anchored : List BlockRow → List BlockRow → Type 0
Anchored before [] = Unit
Anchored before (r ∷ rows) = Rests before r.parent r.height × Anchored (before ++ r ∷ []) rows

pub append-Anchored :
    (before rows : List BlockRow) (r : BlockRow)
    → Anchored before rows
    → Rests (before ++ rows) r.parent r.height
    → Anchored before (rows ++ r ∷ [])
append-Anchored before [] r a rests = (rw (← append-nil before) rests, tt)
append-Anchored before (s ∷ rows) r a rests = (
  a.0,
  append-Anchored (before ++ s ∷ []) rows r a.1 (rw (append_assoc before (s ∷ []) rows) rests),
)

lowered-fields :
    (h : Hash32) (sec : ℕ) (r : BlockRow)
    → ((lowered h sec r).hash ≡ r.hash)
      × ((lowered h sec r).parent ≡ r.parent)
      × ((lowered h sec r).height ≡ r.height)
      × ((lowered h sec r).is_best ≡ r.is_best)
lowered-fields h sec r = elim (Bool-cases (hash_eq r.hash h && ltb sec r.first_seen)) [
  | inl e ↦ rw e (refl, refl, refl, refl)
  | inr e ↦ rw e (refl, refl, refl, refl)
]

In-lower :
    (h : Hash32) (sec : ℕ) (rows : List BlockRow) (r : BlockRow)
    → In r rows
    → In (lowered h sec r) (lower_block_first_seen h sec rows)
unfolding lower_block_first_seen
In-lower h sec [] r i = elim i [ ]
In-lower h sec (s ∷ rows) r (inl e) = inl (ap (lowered h sec) e)
In-lower h sec (s ∷ rows) r (inr i) = inr (In-lower h sec rows r i)

lower-Rests :
    (h : Hash32) (sec : ℕ) (rows : List BlockRow) (parent : Hash32) (height : ℕ)
    → Rests rows parent height
    → Rests (lower_block_first_seen h sec rows) parent height
lower-Rests h sec rows parent height (on_zero e) = on_zero e
lower-Rests h sec rows parent height (first none_best) = first λ s i.
    let (r, j, e) = lower-In h sec rows s i in
    ap (λ (t : BlockRow). t.is_best) e ∙ (lowered-fields h sec r).3 ∙ none_best r j
lower-Rests h sec rows parent height (above p i same one_higher) =
    let fields = lowered-fields h sec p in
    above (lowered h sec p) (In-lower h sec rows p i) (fields.0 ∙ same)
      (one_higher ∙ ap (λ n. (n + 1) % 2 ^ 32) (sym fields.2))

lower-append :
    (h : Hash32) (sec : ℕ) (before : List BlockRow) (r : BlockRow)
    → lower_block_first_seen h sec before ++ lowered h sec r ∷ []
      ≡ lower_block_first_seen h sec (before ++ r ∷ [])
unfolding lower_block_first_seen
lower-append h sec [] r = refl
lower-append h sec (s ∷ before) r =
    ap (λ rest. lowered h sec s ∷ rest) (lower-append h sec before r)

pub lower-Anchored :
    (h : Hash32) (sec : ℕ) (before rows : List BlockRow)
    → Anchored before rows
    → Anchored (lower_block_first_seen h sec before) (lower_block_first_seen h sec rows)
unfolding lower_block_first_seen
lower-Anchored h sec before [] a = tt
lower-Anchored h sec before (r ∷ rows) a =
    let fields = lowered-fields h sec r in
    (
      rw (fields.1, fields.2) (lower-Rests h sec before r.parent r.height a.0),
      rw (lower-append h sec before r) (lower-Anchored h sec (before ++ r ∷ []) rows a.1),
    )
