-- ===== src/Types/Height/Padding.antt =====
-- The height that `parseHeight` reads, and what its padding does to the script.
use x_b10cslashbademeister.Common.{
  ℕ, zero, suc, ◌-◌, ◌/◌, ◌%◌, ◌^◌, ◌≤◌, ◌<◌, ◌≡◌, refl, some, List, [], ◌∷◌, ◌++◌, arith, set,
}
use x_b10cslashbademeister.Types.Height.{parse_height}

-- The least significant byte first, as BIP 34 writes a height.
unfoldable pub height_bytes : ℕ → ℕ → List ℕ
height_bytes zero height = []
height_bytes (suc n) height = height % 256 ∷ height_bytes n (height / 256)

-- The first `n` bytes replaced by zeros.
pub blank : ℕ → List ℕ → List ℕ
blank zero script = script
blank (suc n) [] = []
blank (suc n) (x ∷ script) = 0 ∷ blank n script

blank_one : (rest : List ℕ) → set rest 0 0 ≡ blank 1 rest
unfolding blank
blank_one [] = refl
blank_one (x ∷ rest) = refl

blank_two : (rest : List ℕ) → set (set rest 0 0) 1 0 ≡ blank 2 rest
unfolding blank
blank_two [] = refl
blank_two (x ∷ rest) = rw (blank_one rest)

blank_three : (rest : List ℕ) → set (set (set rest 0 0) 1 0) 2 0 ≡ blank 3 rest
unfolding blank
blank_three [] = refl
blank_three (x ∷ rest) = rw (blank_two rest)

blank_four : (rest : List ℕ) → set (set (set (set rest 0 0) 1 0) 2 0) 3 0 ≡ blank 4 rest
unfolding blank
blank_four [] = refl
blank_four (x ∷ rest) = rw (blank_three rest)

-- A script that begins with a height of up to four bytes yields the height, and is left with the
-- 4 - k bytes behind the height overwritten by zeros.
pub parse_height-height_bytes :
    (k height : ℕ) (rest : List ℕ)
    → k ≤ 4
    → height < 256 ^ k
    → parse_height (k ∷ height_bytes k height ++ rest)
      ≡ some (height, k ∷ height_bytes k height ++ blank (4 - k) rest)
unfolding parse_height height_bytes blank
parse_height-height_bytes zero h rest k b = ground (arith, blank_four rest)
parse_height-height_bytes (suc zero) h rest k b = ground (arith, blank_three rest)
parse_height-height_bytes (suc (suc zero)) h rest k b = ground (arith, blank_two rest)
parse_height-height_bytes (suc (suc (suc zero))) h rest k b = ground (arith, blank_one rest)
parse_height-height_bytes (suc (suc (suc (suc zero)))) h rest k b = ground arith
parse_height-height_bytes (suc (suc (suc (suc (suc n))))) h rest k b = absurd (omega arith)
