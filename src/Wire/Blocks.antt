-- ===== src/Wire/Blocks.antt =====
-- What a block made from a wire block holds.
use mathlib.Core.List.{append_assoc, append-nil}
use x_b10cslashbademeister.Common.{
  ℕ, ◌-◌, ◌^◌, ◌≤◌, ◌<◌, ◌≡◌, refl, ◌⊎◌, inl, inr, true, false, Bool-cases, Option-cases, Option,
  none, some, List, [], ◌∷◌, ◌++◌, map, arith, All,
}
use x_b10cslashbademeister.Types.{Time, Hash32, Block}
use x_b10cslashbademeister.Types.Height.Padding.{height_bytes, blank, parse_height-height_bytes}
use x_b10cslashbademeister.Errors.{ok, err, panic, Error, height_not_found}
use x_b10cslashbademeister.Wire.{
  TxIn, MsgTx, BlockHeader, MsgBlock, Btcd, height_of_coinbase, scan_transactions, block_of,
  new_block_from_wire_block,
}

-- A transaction whose first input's script is `script`, with the other inputs and fields of `t`.
abbrev pub with_script : List ℕ → TxIn → List TxIn → MsgTx → MsgTx
with_script script input others t = record t {
  tx_in = record input { signature_script = script } ∷ others;
}

height_of_coinbase_lem :
    (t : MsgTx) (input : TxIn) (others : List TxIn) (k height : ℕ) (rest : List ℕ)
    → k ≤ 4
    → height < 256 ^ k
    → height_of_coinbase (with_script (k ∷ height_bytes k height ++ rest) input others t)
      ≡ some (height, with_script (k ∷ height_bytes k height ++ blank (4 - k) rest) input others t)
unfolding height_of_coinbase
height_of_coinbase_lem t input others k height rest small bound =
    ground (arith, parse_height-height_bytes k height rest small bound)

module _ (b : Btcd) where
  abbrev pub NoCoinbase : List MsgTx → Type 0
  NoCoinbase = All (λ t. b.is_coin_base_tx t ≡ false)

  -- With no coinbase left, the hashes follow in order and the height stays.
  scan_transactions-NoCoinbase :
      (ts : List MsgTx) (height : Option ℕ) (hashes : List Hash32)
      → NoCoinbase ts
      → scan_transactions b ts height hashes ≡ ok (height, hashes ++ map b.tx_hash ts)
  unfolding scan_transactions
  scan_transactions-NoCoinbase [] height hashes h = rw append-nil
  scan_transactions-NoCoinbase (t ∷ ts) height hashes h = ground (
    arith,
    h.0,
    scan_transactions-NoCoinbase ts height (hashes ++ b.tx_hash t ∷ []) h.1,
    append_assoc hashes (b.tx_hash t ∷ []) (map b.tx_hash ts),
  )

  -- A block without a coinbase transaction is refused, whatever else it holds.
  new_block-NoCoinbase :
      (first_seen : Time) (w : MsgBlock)
      → NoCoinbase w.transactions
      → new_block_from_wire_block b first_seen w ≡ err height_not_found
  unfolding new_block_from_wire_block
  new_block-NoCoinbase first_seen w h = rw (scan_transactions-NoCoinbase w.transactions none [] h)

  -- A block that begins with its coinbase, as BIP 34 has it, becomes a best block with the height
  -- of the script, the hash and the parent of the header, and the hashes of the transactions in
  -- their order. The first of these is not the hash of the coinbase, but of the transaction with
  -- the 4 - k bytes behind the height set to zero.
  pub new_block-coinbase :
      (first_seen : Time) (header : BlockHeader) (t : MsgTx) (ts : List MsgTx) (input : TxIn)
      (others : List TxIn) (k height : ℕ) (rest : List ℕ)
      → b.is_coin_base_tx (with_script (k ∷ height_bytes k height ++ rest) input others t) ≡ true
      → NoCoinbase ts
      → k ≤ 4
      → height < 256 ^ k
      → new_block_from_wire_block b first_seen (record {
        header = header;
        transactions = with_script (k ∷ height_bytes k height ++ rest) input others t ∷ ts;
      })
        ≡ ok (record {
          hash = b.block_hash header;
          parent = header.prev_block;
          first_seen = first_seen;
          height = height;
          is_best = true;
          tx_ids =
              b.tx_hash
                (with_script (k ∷ height_bytes k height ++ blank (4 - k) rest) input others t)
              ∷ map b.tx_hash ts;
          encoded_time = some header.timestamp;
        })
  unfolding new_block_from_wire_block
  new_block-coinbase first_seen header t ts input others k height rest coinbase plain small bound =
      ground (
        arith,
        coinbase,
        height_of_coinbase_lem t input others k height rest small bound,
        scan_transactions-NoCoinbase ts (some height)
            (b.tx_hash
                (with_script (k ∷ height_bytes k height ++ blank (4 - k) rest) input others t)
              ∷ [])
            plain,
      )

  scan_transactions-cases :
      (ts : List MsgTx) (height : Option ℕ) (hashes : List Hash32)
      → ((found : Option ℕ × List Hash32) × (scan_transactions b ts height hashes ≡ ok found))
        ⊎ (scan_transactions b ts height hashes ≡ panic)
  unfolding scan_transactions
  scan_transactions-cases [] height hashes = inl ((height, hashes), refl)
  scan_transactions-cases (t ∷ ts) height hashes = elim (Bool-cases (b.is_coin_base_tx t)) [
    | inr e ↦
        rw (e, scan_transactions) (scan_transactions-cases ts height (hashes ++ b.tx_hash t ∷ []))
    | inl e ↦ elim (Option-cases (height_of_coinbase t)) [
      | inl q ↦ inr (rw (e, q, scan_transactions) refl)
      | inr ((h, t'), q) ↦
          rw (e, q, scan_transactions)
            (scan_transactions-cases ts (some h) (hashes ++ b.tx_hash t' ∷ []))
    ]
  ]

  abbrev built : Time → MsgBlock → ℕ → List Hash32 → Block
  built first_seen w h hashes = record {
    hash = b.block_hash w.header;
    parent = w.header.prev_block;
    first_seen = first_seen;
    height = h;
    is_best = true;
    tx_ids = hashes;
    encoded_time = some w.header.timestamp;
  }

  -- The outcome is a block with the hash and the parent of the header, an error or a panic.
  pub new_block-cases :
      (first_seen : Time) (w : MsgBlock)
      → ((block : Block) × (new_block_from_wire_block b first_seen w ≡ ok block)
          × (block.hash ≡ b.block_hash w.header)
          × (block.parent ≡ w.header.prev_block))
        ⊎ ((e : Error) × (new_block_from_wire_block b first_seen w ≡ err e))
        ⊎ (new_block_from_wire_block b first_seen w ≡ panic)
  unfolding new_block_from_wire_block block_of
  new_block-cases first_seen w = elim (scan_transactions-cases w.transactions none []) [
    | inr q ↦ inr (inr (rw q refl))
    | inl ((none, hashes), q) ↦ inr (inl (height_not_found, rw q refl))
    | inl ((some h, hashes), q) ↦ inl (built first_seen w h hashes, rw q refl, refl, refl)
  ]
