-- ===== src/Types/Hash/Reversed.antt =====
-- `Hash32.Reversed` reverses the bytes, and is its own inverse.
use mathlib.Core.List.{reverse-reverse, append-nil, append_assoc, reverse-append}
use x_b10cslashbademeister.Common.{
  ℕ, zero, suc, ◌+◌, ◌-◌, ◌<◌, ◌≡◌, refl, ap, ◌∙◌, List, [], ◌∷◌, ◌++◌, reverse, arith, length, set,
  drop, replicate,
}
use x_b10cslashbademeister.Types.Hash.{Hash32, IsHash, reversed_from, reversed}

abbrev of_bytes : List ℕ → Hash32
of_bytes bs = record { bytes = bs }

drop-set_self :
    (n : ℕ) (x : ℕ) (xs : List ℕ) → n < length xs → drop n (set xs n x) ≡ x ∷ drop (suc n) xs
drop-set_self n x [] h = absurd (omega arith)
drop-set_self zero x (y ∷ ys) h = refl
drop-set_self (suc n) x (y ∷ ys) h = drop-set_self n x ys (omega arith)

length-set : (xs : List ℕ) (n x : ℕ) → length (set xs n x) ≡ length xs
length-set [] n x = refl
length-set (y ∷ ys) zero x = refl
length-set (y ∷ ys) (suc n) x = ap suc (length-set ys n x)

reversed_from_lem :
    (i : ℕ) (xs res : List ℕ)
    → i + length xs ≡ 32
    → length res ≡ 32
    → reversed_from i xs res ≡ reverse xs ++ drop (length xs) res
unfolding reversed_from
reversed_from_lem i [] res h r = refl
reversed_from_lem i (x ∷ xs) res h r =
    let k : 31 - i ≡ length xs = omega arith in
    rw (
      reversed_from_lem (suc i) xs (set res (31 - i) x) (omega arith) (rw length-set r),
      k,
      drop-set_self (length xs) x res (omega arith),
      reverse-append (x ∷ []) xs,
      append_assoc,
    )

drop_all : (xs : List ℕ) → drop (length xs) xs ≡ []
drop_all [] = refl
drop_all (x ∷ xs) = drop_all xs

-- On a 32-byte hash the loop reverses the sequence of bytes.
pub reversed-bytes : (h : Hash32) → IsHash h → (reversed h).bytes ≡ reverse h.bytes
unfolding reversed
reversed-bytes h size = rw (
  reversed_from_lem 0 h.bytes (replicate 32 0) (omega (arith, size.size)) refl,
  size.size,
  append-nil,
)

length-reversed_from : (i : ℕ) (xs res : List ℕ) → length (reversed_from i xs res) ≡ length res
unfolding reversed_from
length-reversed_from i [] res = refl
length-reversed_from i (x ∷ xs) res =
    rw (length-reversed_from (suc i) xs (set res (31 - i) x)) (length-set res _ x)

-- `Reversed` of a 32-byte hash is a 32-byte hash, with the bytes in reverse order, and reversing
-- it once more gives the hash back.
pub reversed-reversed :
    (h : Hash32)
    → IsHash h
    → IsHash (reversed h) × ((reversed h).bytes ≡ reverse h.bytes) × (reversed (reversed h) ≡ h)
reversed-reversed h size =
    let r : IsHash (reversed h) = record {
      size = unfold reversed in length-reversed_from 0 h.bytes (replicate 32 0);
    } in
    (
      r,
      reversed-bytes h size,
      ap of_bytes (
          reversed-bytes (reversed h) r
          ∙ ap reverse (reversed-bytes h size)
          ∙ reverse-reverse h.bytes),
    )
