-- ===== src/Types/Hash/Hex.antt =====
-- `Hash32.String` of src/types/hash.go, which is Go's hex.EncodeToString, and Go's
-- hex.DecodeString, by which src/bitcoinrpcclient/rpcmempool.go reads the text back.
use x_b10cslashbademeister.Common.{
  ℕ, ◌+◌, ◌-◌, ◌*◌, ◌/◌, ◌%◌, ◌<◌, ◌≡◌, refl, ◌&&◌, Option, none, some, List, [], ◌∷◌, arith, ltb,
  leb, if◌then◌else◌, All,
}
use x_b10cslashbademeister.Types.Hash.{Hash32, IsHash, new_hash_from_bytes}

-- The character code of a digit, lower case.
hex_digit : ℕ → ℕ
hex_digit n = if ltb n 10 then 48 + n else 87 + n

-- Both cases are read.
from_digit : ℕ → Option ℕ
from_digit c =
    if leb 48 c && leb c 57
    then some (c - 48)
    else if leb 97 c && leb c 102
    then some (c - 87)
    else if leb 65 c && leb c 70
    then some (c - 55)
    else none

unfoldable pub encode_to_string : List ℕ → List ℕ
unfolding hex_digit
encode_to_string [] = []
encode_to_string (b ∷ bs) = hex_digit (b / 16) ∷ hex_digit (b % 16) ∷ encode_to_string bs

-- A byte in front of what the rest decodes to.
join_digits : Option ℕ → Option ℕ → Option (List ℕ) → Option (List ℕ)
join_digits (some high) (some low) (some bs) = some ((high * 16 + low) ∷ bs)
join_digits _ _ _ = none

-- none is the error: an odd length, or a character that is no digit.
unfoldable pub decode_string : List ℕ → Option (List ℕ)
unfolding from_digit join_digits
decode_string [] = some []
decode_string (c ∷ []) = none
decode_string (c ∷ d ∷ cs) = join_digits (from_digit c) (from_digit d) (decode_string cs)

-- `Hash32.String`
abbrev pub to_string : Hash32 → List ℕ
to_string h = encode_to_string h.bytes

digit-round_trip : (n : ℕ) → n < 16 → from_digit (hex_digit n) ≡ some n
unfolding from_digit hex_digit
digit-round_trip n h = ground arith

decode-encode :
    (bs : List ℕ) → All (λ b. b < 256) bs → decode_string (encode_to_string bs) ≡ some bs
unfolding decode_string encode_to_string
decode-encode [] h = refl
decode-encode (b ∷ bs) h =
    rw
      (
        digit-round_trip (b / 16) (omega arith),
        digit-round_trip (b % 16) (omega arith),
        decode-encode bs h.1,
      )
      (ground arith)

-- The text of a 32-byte hash decodes to the bytes of the hash, and these make the hash again.
pub decode-to_string :
    (h : Hash32)
    → IsHash h
    → All (λ b. b < 256) h.bytes
    → (decode_string (to_string h) ≡ some h.bytes) × (new_hash_from_bytes h.bytes ≡ some h)
unfolding new_hash_from_bytes
decode-to_string h size bound = (decode-encode h.bytes bound, rw size.size)
