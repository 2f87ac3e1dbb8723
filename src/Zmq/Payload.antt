-- ===== src/Zmq/Payload.antt =====
-- The payload of a rawtxwithfee message.
use x_b10cslashbademeister.Common.{
  ℕ, ◌+◌, ◌-◌, ◌*◌, ◌^◌, ◌<◌, ◌≡◌, refl, ap, none, some, List, [], ◌∷◌, ◌++◌, length, length-append,
  take, drop, leb, arith, false,
}
use x_b10cslashbademeister.Types.{Time}
use x_b10cslashbademeister.Types.Height.Padding.{height_bytes}
use x_b10cslashbademeister.Errors.{ok}
use x_b10cslashbademeister.Wire.{MsgTx, Btcd}
use x_b10cslashbademeister.Zmq.{little_endian, parse_raw_tx, parse_transaction}

take-append : (xs ys : List ℕ) → take (length xs) (xs ++ ys) ≡ xs
take-append [] ys = refl
take-append (x ∷ xs) ys = ap (λ l. x ∷ l) (take-append xs ys)

drop-append : (xs ys : List ℕ) → drop (length xs) (xs ++ ys) ≡ ys
drop-append [] ys = refl
drop-append (x ∷ xs) ys = drop-append xs ys

little_endian-height_bytes : (fee : ℕ) → fee < 2 ^ 64 → little_endian (height_bytes 8 fee) ≡ fee
unfolding little_endian height_bytes
little_endian-height_bytes fee h = omega arith

length-height_bytes : (fee : ℕ) → length (height_bytes 8 fee) ≡ 8
unfolding height_bytes
length-height_bytes fee = refl

-- A payload of a serialized transaction followed by its fee on eight bytes, least significant
-- first, and of a counter, is parsed to the hash of the transaction, the fee, and the weight of
-- three stripped sizes and one full size, first seen at the time given.
pub parse_transaction-fee :
    (b : Btcd) (first_seen : Time) (raw counter : List ℕ) (t : MsgTx) (fee : ℕ)
    → b.decode_tx raw ≡ some t
    → 0 < length raw
    → fee < 2 ^ 64
    → parse_transaction b first_seen ((raw ++ height_bytes 8 fee) ∷ counter ∷ [])
      ≡ ok (record {
        tx_id = b.tx_hash t;
        first_seen = first_seen;
        last_removed = none;
        fee = fee;
        weight = 3 * b.serialize_size_stripped t + b.serialize_size t;
      })
unfolding parse_transaction parse_raw_tx
parse_transaction-fee b first_seen raw counter t fee decoded some_bytes small =
    let n : length (raw ++ height_bytes 8 fee) - 8 ≡ length raw =
      omega (arith, length-append raw (height_bytes 8 fee), length-height_bytes fee) in
    let long : leb (length (raw ++ height_bytes 8 fee)) 8 ≡ false =
      ground (arith, length-append raw (height_bytes 8 fee), length-height_bytes fee) in
    rw
      (
        long,
        n,
        take-append raw (height_bytes 8 fee),
        decoded,
        n,
        drop-append raw (height_bytes 8 fee),
        little_endian-height_bytes fee small,
      )
      (ground arith)
