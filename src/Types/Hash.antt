-- ===== src/Types/Hash.antt =====
-- src/types/hash.go: 32-byte hashes, their hexadecimal text and the reversal of their bytes.
pub mod Hex
pub mod Reversed
use x_b10cslashbademeister.Common.{
  ℕ, suc, ◌-◌, ◌≡◌, refl, sym, ap, ◌↔◌, Bool, true, false, ◌&&◌, Option, none, some, List, [], ◌∷◌,
  arith, ◌==◌, if◌then◌else◌, length, set, replicate,
}

pub record Hash32 : Type 0 where
  pub bytes : List ℕ

-- What Go's type [32]byte gives of every value.
pub record IsHash (h : Hash32) : Type 0 where
  pub size : length h.bytes ≡ 32

-- `var zeroHash types.Hash32`
abbrev pub zero_hash : Hash32
zero_hash = record { bytes = replicate 32 0 }

bytes_eq : List ℕ → List ℕ → Bool
bytes_eq [] [] = true
bytes_eq (x ∷ xs) (y ∷ ys) = x == y && bytes_eq xs ys
bytes_eq _ _ = false

-- Go's `==` on two arrays.
unfoldable pub hash_eq : Hash32 → Hash32 → Bool
unfolding bytes_eq
hash_eq g h = bytes_eq g.bytes h.bytes

bytes_eq_sound : (xs ys : List ℕ) → bytes_eq xs ys ≡ true → xs ≡ ys
unfolding bytes_eq
bytes_eq_sound [] [] e = refl
bytes_eq_sound (x ∷ xs) (y ∷ ys) e = ground (arith, bytes_eq_sound xs ys)
bytes_eq_sound [] (y ∷ ys) e = ground arith
bytes_eq_sound (x ∷ xs) [] e = ground arith

bytes_eq_refl : (xs : List ℕ) → bytes_eq xs xs ≡ true
unfolding bytes_eq
bytes_eq_refl [] = refl
bytes_eq_refl (x ∷ xs) = ground (arith, bytes_eq_refl xs)

pub hash_eq_iff : (g h : Hash32) → (hash_eq g h ≡ true) ↔ (g ≡ h)
unfolding hash_eq
hash_eq_iff g h = (
  λ e. ap (λ (b : List ℕ). let r : Hash32 = record { bytes = b } in r) (bytes_eq_sound _ _ e),
  λ e. rw e (bytes_eq_refl h.bytes),
)

-- `NewHashFromBytes`: none is the panic on any other length.
unfoldable pub new_hash_from_bytes : List ℕ → Option Hash32
new_hash_from_bytes bytes = if length bytes == 32 then some (record { bytes = bytes }) else none

-- The loop of `Reversed`: `res[31-i] = h[i]` for the bytes from the i-th on.
reversed_from : ℕ → List ℕ → List ℕ → List ℕ
reversed_from i [] res = res
reversed_from i (x ∷ xs) res = reversed_from (suc i) xs (set res (31 - i) x)

pub reversed : Hash32 → Hash32
unfolding reversed_from
reversed h = record { bytes = reversed_from 0 h.bytes (replicate 32 0) }
