-- ===== src/Wire.antt =====
-- `NewBlockFromBytes` and `NewBlockFromWireBlock` of src/types/block.go, over the blocks and
-- transactions of github.com/btcsuite/btcd/wire.
pub mod Blocks
use x_b10cslashbademeister.Common.{
  ℕ, Bool, true, Option, none, some, List, [], ◌∷◌, ◌++◌, if◌then◌else◌,
}
use x_b10cslashbademeister.Types.{Time, Hash32, Block}
use x_b10cslashbademeister.Types.Height.{parse_height}
use x_b10cslashbademeister.Errors.{
  Result, ok, err, panic, out_of_fuel, ◌>>=◌, bad_block_bytes, height_not_found,
}

-- The fields of btcd's structures that the code reads; `body` stands for all the others.
pub record TxIn : Type 0 where
  pub signature_script : List ℕ
  pub body : List ℕ

pub record MsgTx : Type 0 where
  pub tx_in : List TxIn
  pub body : List ℕ

pub record BlockHeader : Type 0 where
  pub prev_block : Hash32
  pub timestamp : Time
  pub body : List ℕ

pub record MsgBlock : Type 0 where
  pub header : BlockHeader
  pub transactions : List MsgTx

-- What the code calls in btcd. A hash is a [32]byte there as here, so that NewHashFromArray copies.
pub record Btcd : Type 0 where
  -- wire.MsgBlock.BtcDecode
  pub decode_block : List ℕ → Option MsgBlock
  -- blockchain.IsCoinBaseTx
  pub is_coin_base_tx : MsgTx → Bool
  -- wire.MsgTx.TxHash, wire.MsgBlock.BlockHash
  pub tx_hash : MsgTx → Hash32
  pub block_hash : BlockHeader → Hash32
  -- wire.MsgTx.Deserialize, SerializeSize and SerializeSizeStripped
  pub decode_tx : List ℕ → Option MsgTx
  pub serialize_size : MsgTx → ℕ
  pub serialize_size_stripped : MsgTx → ℕ

-- `parseHeight(*t.TxIn[0])`: the height, and the transaction with the script that is left behind.
unfoldable pub height_of_coinbase : MsgTx → Option (ℕ × MsgTx)
height_of_coinbase t = elim t.tx_in [
  | [] ↦ none
  | input ∷ others ↦ elim (parse_height input.signature_script) [
    | none ↦ none
    | some (height, script) ↦
        some (height, record t { tx_in = record input { signature_script = script } ∷ others })
  ]
]

module _ (b : Btcd) where
  -- The loop over the transactions. `height` is none where the code has -1.
  scan_transactions : List MsgTx → Option ℕ → List Hash32 → Result (Option ℕ × List Hash32)
  scan_transactions [] height tx_hashes = ok (height, tx_hashes)
  scan_transactions (t ∷ ts) height tx_hashes = elim (b.is_coin_base_tx t) [
    | true ↦ elim (height_of_coinbase t) [
      | none ↦ panic
      | some (h, t') ↦ scan_transactions ts (some h) (tx_hashes ++ b.tx_hash t' ∷ [])
    ]
    | _ ↦ scan_transactions ts height (tx_hashes ++ b.tx_hash t ∷ [])
  ]

  block_of : Time → BlockHeader → Option ℕ × List Hash32 → Result Block
  block_of first_seen header (none, tx_hashes) = err height_not_found
  block_of first_seen header (some height, tx_hashes) = ok (record {
    first_seen = first_seen;
    encoded_time = some header.timestamp;
    hash = b.block_hash header;
    parent = header.prev_block;
    tx_ids = tx_hashes;
    height = height;
    is_best = true;
  })

  unfoldable pub new_block_from_wire_block : Time → MsgBlock → Result Block
  unfolding scan_transactions block_of
  new_block_from_wire_block first_seen wire_block = do
    found ← scan_transactions wire_block.transactions none []
    block_of first_seen wire_block.header found

  unfoldable pub new_block_from_bytes : Time → List ℕ → Result Block
  new_block_from_bytes first_seen raw_block = elim (b.decode_block raw_block) [
    | none ↦ err bad_block_bytes
    | some wire_block ↦ new_block_from_wire_block first_seen wire_block
  ]
