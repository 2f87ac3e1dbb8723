-- ===== src/Rpc.antt =====
-- src/bitcoinrpcclient: the node behind the RPC client, whose answers are a parameter, and
-- `RawMempoolToTransactions` of rpcmempool.go.
pub mod Client
pub mod Entries
pub mod Fees
use x_b10cslashbademeister.Common.{
  ℕ, zero, suc, ◌*◌, ◌/◌, ◌%◌, ◌^◌, ◌&&◌, ◌||◌, ltb, if◌then◌else◌, Bool, true, false, Option, none,
  some, List, [], ◌∷◌, ◌++◌, length, ◌==◌,
}
use x_b10cslashbademeister.Types.{at_second, Hash32, Transaction}
use x_b10cslashbademeister.Types.Hash.{new_hash_from_bytes}
use x_b10cslashbademeister.Types.Hash.Hex.{decode_string}
use x_b10cslashbademeister.Errors.{
  Result, ok, err, panic, out_of_fuel, bad_hex, wrap, decoding_tx_hash,
}
use x_b10cslashbademeister.Wire.{MsgBlock}

-- A number of the type float64 that is not negative and below 2^53: its mantissa, of up to 53 bits,
-- over a power of two.
pub record Float64 : Type 0 where
  pub mantissa : ℕ
  pub exponent : ℕ

-- How many bits of a product are too many for a mantissa. With a factor of 27 bits there are at
-- most 27.
unfoldable pub excess_bits : ℕ → ℕ → ℕ
excess_bits zero n = 0
excess_bits (suc fuel) n =
    let rest = excess_bits fuel (n / 2) in if ltb n (2 ^ 53) then 0 else suc rest

-- A multiple of 2 ^ bits next to a number, an even one of two that are equally near.
unfoldable pub round_to_even : ℕ → ℕ → ℕ
round_to_even n bits =
    let low = n / 2 ^ bits in
    let rest = 2 * (n % 2 ^ bits) in
    let up = ltb (2 ^ bits) rest || (rest == 2 ^ bits && low % 2 == 1) in
    if up then suc low * 2 ^ bits else low * 2 ^ bits

-- `uint64(base * 1e8)`: the product, rounded to a float64, without its fraction.
unfoldable pub satoshis : Float64 → ℕ
unfolding excess_bits round_to_even
satoshis base =
    let product = base.mantissa * 100000000 in
    round_to_even product (excess_bits 27 product) / 2 ^ base.exponent

-- The fields of `GetRawMempoolVerboseResult` that the code reads.
pub record GetRawMempoolVerboseResult : Type 0 where
  pub weight : ℕ
  pub time : ℕ
  pub base_fee : Float64

-- The node's answers, none for an error. They stay the same during one call of the daemon. A map
-- is the list of its entries in the order in which Go visits them.
pub record BitcoinRpcClient : Type 0 where
  pub get_best_block_hash : Option Hash32
  pub get_block : Hash32 → Option MsgBlock
  pub get_raw_mempool_verbose : Option (List (List ℕ × GetRawMempoolVerboseResult))

-- One entry, with the bytes of its hash. A hash of another size than 32 returns `errors.Wrapf` of an
-- error that is nil, which is nil: no transactions, and no error. It is none here.
unfoldable pub transaction_of_entry :
    Option (List ℕ) → GetRawMempoolVerboseResult → Result (Option Transaction)
unfolding satoshis
transaction_of_entry none tx_info = err (wrap decoding_tx_hash bad_hex)
transaction_of_entry (some bytes) tx_info = elim (length bytes == 32) [
  | false ↦ ok none
  | true ↦ elim (new_hash_from_bytes bytes) [
    | none ↦ panic
    | some h ↦ ok (
        some (record {
          tx_id = h;
          first_seen = at_second tx_info.time;
          last_removed = none;
          fee = satoshis tx_info.base_fee;
          weight = tx_info.weight;
        }))
  ]
]

unfoldable pub transactions_from :
    List Transaction → List (List ℕ × GetRawMempoolVerboseResult) → Result (List Transaction)
unfolding transaction_of_entry
transactions_from res [] = ok res
transactions_from res (entry ∷ rest) = elim (transaction_of_entry (decode_string entry.0) entry.1) [
  | ok (some tx) ↦ transactions_from (res ++ tx ∷ []) rest
  | ok none ↦ ok []
  | err e ↦ err e
  | panic ↦ panic
  | out_of_fuel ↦ out_of_fuel
]

unfoldable pub raw_mempool_to_transactions :
    List (List ℕ × GetRawMempoolVerboseResult) → Result (List Transaction)
unfolding transactions_from
raw_mempool_to_transactions rpc_mempool = transactions_from [] rpc_mempool
