-- ===== src/Types/Height.antt =====
-- `parseHeight` of src/types/block.go: the block height that stands in front of the script of a
-- coinbase transaction (BIP 34). The code pads the bytes by `append`, which writes into the
-- script's own array while this has room: the function returns the script that it leaves behind.
pub mod Padding
use x_b10cslashbademeister.Common.{
  ℕ, zero, suc, ◌+◌, ◌-◌, ◌*◌, ◌%◌, Bool, ◌||◌, Option, none, some, List, [], ◌∷◌, ◌++◌, ltb,
  if◌then◌else◌, length, set, take,
}

-- `for len(heightLittleEndian) < 4 { … append(heightLittleEndian, 0) }` with `rounds` left; four
-- are enough. `set` writes nothing past the end, where `append` copies to a new array instead.
pad_height : ℕ → List ℕ → List ℕ → List ℕ × List ℕ
pad_height zero bytes script = (bytes, script)
pad_height (suc rounds) bytes script =
    let more = pad_height rounds (bytes ++ 0 ∷ []) (set script (1 + length bytes) 0) in
    if ltb (length bytes) 4 then more else (bytes, script)

-- `binary.LittleEndian.Uint32`; none is its panic on fewer than four bytes.
little_endian_uint32 : List ℕ → Option ℕ
little_endian_uint32 (a ∷ b ∷ c ∷ d ∷ _) = some (a + 256 * b + 65536 * c + 16777216 * d)
little_endian_uint32 _ = none

height_of : List ℕ × List ℕ → Option (ℕ × List ℕ)
unfolding little_endian_uint32
height_of (bytes, script) = elim (little_endian_uint32 bytes) [
  | none ↦ none
  | some h ↦ some (h, script)
]

-- none is a panic: an empty script, or a slice `[1 : heightLength+1]` out of range. The addition
-- is on bytes. The capacity of the script is its length, as the decoder leaves it.
unfoldable pub parse_height : List ℕ → Option (ℕ × List ℕ)
unfolding height_of pad_height
parse_height [] = none
parse_height (height_length ∷ rest) =
    let high = (height_length + 1) % 256 in
    if ltb high 1 || ltb (suc (length rest)) high
    then none
    else height_of (pad_height 4 (take (high - 1) rest) (height_length ∷ rest))
