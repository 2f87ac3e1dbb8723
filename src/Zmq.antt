-- ===== src/Zmq.antt =====
-- src/zmqsubscriber/zmqsubscriber.go: the messages of a node as transactions and blocks on two
-- channels. A byte is a number below 256. The socket and the goroutines are left out: every
-- message is one call of process_message, in the order in which the goroutines get to run.
pub mod Capacity
pub mod Payload
pub mod Subscription
use x_b10cslashbademeister.Common.{
  ℕ, ◌+◌, ◌-◌, ◌*◌, Bool, true, false, Option, none, some, List, [], ◌∷◌, ◌++◌, length, take, drop,
  ltb, leb, if◌then◌else◌,
}
use x_b10cslashbademeister.Types.{Time, Hash32, Block, Transaction}
use x_b10cslashbademeister.Errors.{
  Result, ok, err, panic, out_of_fuel, Error, bad_payload_length, bad_transaction_length,
  bad_transaction_bytes, unknown_topic, channel_capacity_exceeded_tx,
  channel_capacity_exceeded_blocks,
}
use x_b10cslashbademeister.Wire.{MsgTx, Btcd, new_block_from_bytes}

-- The two topics, "rawtxwithfee" and "rawblock", and every other text.
pub data Topic : Type 0 where
  topic_raw_tx_with_fee topic_raw_block other_topic : Topic

abbrev pub channel_size_tx : ℕ
channel_size_tx = 256

abbrev pub channel_size_block : ℕ
channel_size_block = 256

-- The channels, oldest entry first.
pub record ZmqSubscriber : Type 0 where
  pub incoming_tx : List Transaction
  pub incoming_blocks : List Block
  pub cancel : Bool

-- binary.LittleEndian.Uint64
unfoldable pub little_endian : List ℕ → ℕ
little_endian [] = 0
little_endian (b ∷ bs) = b + 256 * little_endian bs

-- The body of `parseTransaction` for the two parts of a payload.
unfoldable pub parse_raw_tx : Btcd → Time → List ℕ → Result Transaction
unfolding little_endian
parse_raw_tx b first_seen raw_tx_with_fee =
    let n = length raw_tx_with_fee in
    if leb n 8
    then err bad_transaction_length
    else elim (b.decode_tx (take (n - 8) raw_tx_with_fee)) [
      | none ↦ err bad_transaction_bytes
      | some wire_tx ↦ ok (record {
        first_seen = first_seen;
        tx_id = b.tx_hash wire_tx;
        last_removed = none;
        fee = little_endian (drop (n - 8) raw_tx_with_fee);
        weight = b.serialize_size_stripped wire_tx * 3 + b.serialize_size wire_tx;
      })
    ]

unfoldable pub parse_transaction : Btcd → Time → List (List ℕ) → Result Transaction
unfolding parse_raw_tx
parse_transaction b first_seen (raw ∷ counter ∷ []) = parse_raw_tx b first_seen raw
parse_transaction b first_seen payload = err bad_payload_length

-- A message of fewer than two parts is an index out of range.
unfoldable pub parse_block : Btcd → Time → List (List ℕ) → Result Block
parse_block b first_seen (raw_block ∷ counter ∷ rest) = new_block_from_bytes b first_seen raw_block
parse_block b first_seen payload = panic

-- A write that does not block, on a channel with room or on a full one.
send_tx : Result Transaction → ZmqSubscriber → Result (Unit {0}) × ZmqSubscriber
send_tx (ok tx) z =
    if ltb (length z.incoming_tx) channel_size_tx
    then (ok tt, record z { incoming_tx = z.incoming_tx ++ tx ∷ [] })
    else (err channel_capacity_exceeded_tx, z)
send_tx (err e) z = (err e, z)
send_tx panic z = (panic, z)
send_tx out_of_fuel z = (out_of_fuel, z)

send_block : Result Block → ZmqSubscriber → Result (Unit {0}) × ZmqSubscriber
send_block (ok block) z =
    if ltb (length z.incoming_blocks) channel_size_block
    then (ok tt, record z { incoming_blocks = z.incoming_blocks ++ block ∷ [] })
    else (err channel_capacity_exceeded_blocks, z)
send_block (err e) z = (err e, z)
send_block panic z = (panic, z)
send_block out_of_fuel z = (out_of_fuel, z)

-- `processMessage` at the time that the clock shows.
unfoldable pub process_message :
    Btcd → Time → Topic → List (List ℕ) → ZmqSubscriber → Result (Unit {0}) × ZmqSubscriber
unfolding send_tx send_block parse_transaction parse_block
process_message b now topic_raw_tx_with_fee payload z = send_tx (parse_transaction b now payload) z
process_message b now topic_raw_block payload z = send_block (parse_block b now payload) z
process_message b now other_topic payload z = (err unknown_topic, z)

-- `Stop`
unfoldable pub stop : ZmqSubscriber → ZmqSubscriber
stop z = record z { cancel = true }
