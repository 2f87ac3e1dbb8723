-- ===== src/Tests/Daemon.antt =====
-- The theorems on the subscriber, the node's mempool and the backfill, at small messages and a node
-- with two blocks above the tip of the scenario.
use x_b10cslashbademeister.Common.{
  ℕ, ◌≡◌, refl, sym, false, none, some, List, [], ◌∷◌, ◌++◌, map, take, arith, if◌then◌else◌,
  Bool-cases, inl, inr,
}
use x_b10cslashbademeister.Types.{at_second, hash_eq, hash_eq_iff}
use x_b10cslashbademeister.Types.Hash.Hex.{decode_string}
use x_b10cslashbademeister.Types.Height.Padding.{height_bytes}
use x_b10cslashbademeister.Errors.{ok}
use x_b10cslashbademeister.Wire.{MsgBlock}
use x_b10cslashbademeister.Zmq.{
  topic_raw_tx_with_fee, other_topic, ZmqSubscriber, parse_transaction,
}
use x_b10cslashbademeister.Zmq.Capacity.{
  Message, process_messages, parsed_txs, parsed_blocks, process_messages-take,
}
use x_b10cslashbademeister.Zmq.Payload.{parse_transaction-fee}
use x_b10cslashbademeister.Rpc.{
  GetRawMempoolVerboseResult, BitcoinRpcClient, raw_mempool_to_transactions, Float64, satoshis,
  excess_bits, round_to_even,
}
use x_b10cslashbademeister.Rpc.Fees.{IsNear}
use x_b10cslashbademeister.Rpc.Entries.{
  entry_of, Converted, raw_mempool_to_transactions-map, raw_mempool_to_transactions-wrong_size,
}
use x_b10cslashbademeister.Daemon.{
  find_missing_blocks, process_transaction, BademeisterDaemon, Progress, progress_of, Steps,
  and_then, none_yet, receive_tx,
}
use x_b10cslashbademeister.Daemon.Backfill.{Found, IsHonest, find_missing_blocks-Found}
use x_b10cslashbademeister.Tests.Scenario.{hash_of, tx_at}
use x_b10cslashbademeister.Tests.Chain.{reorg_db, in_order-IsSound, reorg-UniqueHashes}
use x_b10cslashbademeister.Tests.Types.{toy, counted}

abbrev raw : List ℕ
raw = 7 ∷ 8 ∷ 9 ∷ []

parse_transaction-fee_example :
    parse_transaction toy (at_second 5) ((raw ++ height_bytes 8 1234567) ∷ (1 ∷ []) ∷ [])
    ≡ ok (record {
      tx_id = hash_of 7;
      first_seen = at_second 5;
      last_removed = none;
      fee = 1234567;
      weight = 12;
    })
parse_transaction-fee_example =
    parse_transaction-fee toy (at_second 5) raw (1 ∷ []) (record { tx_in = []; body = raw }) 1234567
      refl (omega arith) (omega arith)

abbrev empty_subscriber : ZmqSubscriber
empty_subscriber = record { incoming_tx = []; incoming_blocks = []; cancel = false }

abbrev messages : List Message
messages =
    record {
      now = at_second 5;
      topic = topic_raw_tx_with_fee;
      payload = (raw ++ height_bytes 8 3) ∷ (1 ∷ []) ∷ [];
    }
    ∷ record { now = at_second 6; topic = topic_raw_tx_with_fee; payload = raw ∷ [] }
    ∷ record { now = at_second 7; topic = other_topic; payload = [] }
    ∷ []

process_messages-take_example :
    ((process_messages toy messages empty_subscriber).incoming_tx
      ≡ take 256 ([] ++ parsed_txs toy messages))
    × ((process_messages toy messages empty_subscriber).incoming_blocks
        ≡ take 256 ([] ++ parsed_blocks toy messages))
process_messages-take_example =
    process_messages-take toy messages empty_subscriber
      (record { txs = omega arith; blocks = omega arith })

-- The number of the type float64 for 0.00001234 bitcoins.
abbrev fee_1234 : Float64
fee_1234 = record { mantissa = 1821062574956607; exponent = 67 }

satoshis_of_1234 : satoshis fee_1234 ≡ 1234
unfolding satoshis excess_bits round_to_even
satoshis_of_1234 = refl

-- For 0.29 bitcoins the product lies below the whole number, and one satoshi is lost.
satoshis_of_29000000 : satoshis (record { mantissa = 5224175567749775; exponent = 54 }) ≡ 28999999
unfolding satoshis excess_bits round_to_even
satoshis_of_29000000 = refl

fee_1234-IsNear : IsNear fee_1234 1234
fee_1234-IsNear = record {
  bits = omega arith;
  scale = omega arith;
  above = omega arith;
  below = omega arith;
}

abbrev info : GetRawMempoolVerboseResult
info = record { weight = 400; time = 1000; base_fee = fee_1234 }

raw_mempool_to_transactions-map_example :
    Converted
      (λ entry. 1234)
      ((counted, info) ∷ [])
      (raw_mempool_to_transactions (map entry_of ((counted, info) ∷ [])))
raw_mempool_to_transactions-map_example =
    raw_mempool_to_transactions-map (λ entry. 1234) ((counted, info) ∷ [])
      ((record { size = refl }, omega arith), tt) (fee_1234-IsNear, tt)

-- The text "00" is that of one byte.
two_zeros : decode_string (48 ∷ 48 ∷ []) ≡ some (0 ∷ [])
unfolding decode_string
two_zeros = refl

raw_mempool_to_transactions-wrong_size_example :
    raw_mempool_to_transactions (map entry_of ((counted, info) ∷ []) ++ (48 ∷ 48 ∷ [], info) ∷ [])
    ≡ ok []
raw_mempool_to_transactions-wrong_size_example =
    raw_mempool_to_transactions-wrong_size ((counted, info) ∷ []) (48 ∷ 48 ∷ []) (0 ∷ []) info []
      ((record { size = refl }, omega arith), tt) two_zeros (omega arith)

-- A node whose best block, of height 3, has the stored block 112 as its parent.
abbrev best_block : MsgBlock
best_block = record {
  header = record { prev_block = hash_of 112; timestamp = at_second 700; body = [] };
  transactions =
      record {
        tx_in = record { signature_script = 1 ∷ 3 ∷ 9 ∷ 9 ∷ 9 ∷ []; body = [] } ∷ [];
        body = 0 ∷ [];
      }
      ∷ [];
}

abbrev node : BitcoinRpcClient
node = record {
  get_best_block_hash = some (hash_of 9);
  get_block = λ h. if hash_eq h (hash_of 9) then some best_block else none;
  get_raw_mempool_verbose = none;
}

node-IsHonest : IsHonest toy node
node-IsHonest h w e = elim (Bool-cases (hash_eq h (hash_of 9))) [
  | inl q ↦ sym ((hash_eq_iff h (hash_of 9)).0 q)
  | inr q ↦ absurd (ground (arith, q, e))
]

find_missing_blocks-Found_example :
    Found reorg_db 100 (hash_of 9) (find_missing_blocks toy (some node) 100 reorg_db)
find_missing_blocks-Found_example =
    find_missing_blocks-Found toy node reorg_db 100 (hash_of 9) node-IsHonest in_order-IsSound
      reorg-UniqueHashes refl

abbrev daemon : BademeisterDaemon
daemon = record {
  zmq_sub = record { incoming_tx = tx_at 7 ∷ []; incoming_blocks = []; cancel = false };
  storage = reorg_db;
  quit = false;
  zmq_sub_err = none;
}

abbrev after_reception : Progress
after_reception = progress_of (process_transaction (tx_at 7) reorg_db).0 (record {
  zmq_sub = empty_subscriber;
  storage = (process_transaction (tx_at 7) reorg_db).1;
  quit = false;
  zmq_sub_err = none;
})

one_reception : Steps toy daemon after_reception
one_reception = and_then none_yet (receive_tx (tx_at 7) [] refl)
