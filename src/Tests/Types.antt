-- ===== src/Tests/Types.antt =====
-- The theorems on hashes, heights and blocks at concrete values. The script is that of the
-- coinbase of block 605453, from the test in src/types/block_test.go, up to its eighth byte.
use x_b10cslashbademeister.Common.{
  ℕ, length, ◌==◌, ◌≡◌, refl, Bool, true, none, some, List, [], ◌∷◌, ◌++◌, arith,
}
use x_b10cslashbademeister.Types.{at_second, Hash32}
use x_b10cslashbademeister.Types.Height.{parse_height}
use x_b10cslashbademeister.Types.Height.Padding.{height_bytes, blank, parse_height-height_bytes}
use x_b10cslashbademeister.Errors.{ok}
use x_b10cslashbademeister.Wire.{TxIn, MsgTx, BlockHeader, Btcd, new_block_from_wire_block}
use x_b10cslashbademeister.Wire.Blocks.{with_script, new_block-coinbase}
use x_b10cslashbademeister.Tests.Scenario.{hash_of}

abbrev pub counted : Hash32
counted = record {
  bytes =
      0 ∷ 1 ∷ 2 ∷ 3 ∷ 4 ∷ 5 ∷ 6 ∷ 7 ∷ 8 ∷ 9 ∷ 10 ∷ 11 ∷ 12 ∷ 13 ∷ 14 ∷ 15 ∷ 16 ∷ 17 ∷ 18 ∷ 19 ∷ 20
      ∷ 21 ∷ 22 ∷ 23 ∷ 24 ∷ 25 ∷ 26 ∷ 27 ∷ 28 ∷ 29 ∷ 30 ∷ 31 ∷ [];
}

abbrev pub behind_height : List ℕ
behind_height = 0x4 ∷ 0xa5 ∷ 0x8 ∷ 0xdd ∷ []

height_605453 :
    parse_height (0x3 ∷ 0xd ∷ 0x3d ∷ 0x9 ∷ behind_height)
    ≡ some (605453, 0x3 ∷ 0xd ∷ 0x3d ∷ 0x9 ∷ 0 ∷ 0xa5 ∷ 0x8 ∷ 0xdd ∷ [])
unfolding parse_height
height_605453 = refl

parse_height-height_bytes_example :
    parse_height (3 ∷ height_bytes 3 605453 ++ behind_height)
    ≡ some (605453, 3 ∷ height_bytes 3 605453 ++ blank 1 behind_height)
parse_height-height_bytes_example =
    parse_height-height_bytes 3 605453 behind_height (omega arith) (omega arith)

abbrev pub input : TxIn
input = record { signature_script = []; body = [] }

abbrev pub a_tx : ℕ → MsgTx
a_tx n = record { tx_in = input ∷ []; body = n ∷ [] }

unfoldable pub is_coinbase : MsgTx → Bool
is_coinbase t = elim t.body [ [] ↦ true | n ∷ ns ↦ n == 0 ]

-- A toy in place of btcd: the coinbase has the body 0, and a hash repeats a byte of the body.
abbrev pub toy : Btcd
toy = record {
  decode_block = λ bytes. none;
  is_coin_base_tx = is_coinbase;
  tx_hash = λ t. elim t.body [ [] ↦ hash_of 0 | n ∷ ns ↦ hash_of n ];
  block_hash = λ h. hash_of 9;
  decode_tx = λ bytes. some (record { tx_in = []; body = bytes });
  serialize_size = λ t. length t.body;
  serialize_size_stripped = λ t. length t.body;
}

abbrev header : BlockHeader
header = record { prev_block = hash_of 8; timestamp = at_second 50; body = [] }

new_block-coinbase_example :
    new_block_from_wire_block toy (at_second 60) (record {
      header = header;
      transactions =
          with_script (3 ∷ height_bytes 3 605453 ++ behind_height) input [] (a_tx 0) ∷ a_tx 1 ∷ [];
    })
    ≡ ok (record {
      hash = hash_of 9;
      parent = hash_of 8;
      first_seen = at_second 60;
      height = 605453;
      is_best = true;
      tx_ids =
          toy.tx_hash
            (with_script (3 ∷ height_bytes 3 605453 ++ blank 1 behind_height) input [] (a_tx 0))
          ∷ hash_of 1
          ∷ [];
      encoded_time = some (at_second 50);
    })
unfolding is_coinbase
new_block-coinbase_example =
    new_block-coinbase toy (at_second 60) header (a_tx 0) (a_tx 1 ∷ []) input [] 3 605453
      behind_height refl (refl, tt) (omega arith) (omega arith)
