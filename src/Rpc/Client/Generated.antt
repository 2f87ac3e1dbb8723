-- ===== src/Rpc/Client/Generated.antt =====
-- What the calls that mine blocks on a test node reach.
use x_b10cslashbademeister.Common.{
  ℕ, ◌+◌, ◌-◌, ◌≡◌, refl, inl, inr, Bool-cases, Option, some, List, [], ◌∷◌, length, leb, arith,
}
use x_b10cslashbademeister.Types.{Hash32}
use x_b10cslashbademeister.Errors.{Result, ok}
use x_b10cslashbademeister.Rpc.Client.{
  Text, Library, generate_to_address_method, chainhashes, generate_to_address,
  generate_to_fixed_address, generate_to_height,
}

module _ {N Raw : Type 0} (library : Library N Raw) where
  -- The texts are those of the hashes, one by one.
  abbrev pub Parsed : List Text → List Hash32 → Type 0
  Parsed [] [] = Unit {0}
  Parsed [] (h ∷ hs) = ⊥
  Parsed (t ∷ texts) [] = ⊥
  Parsed (t ∷ texts) (h ∷ hs) = (library.new_hash_from_str t ≡ some h) × Parsed texts hs

  -- A call of `generatetoaddress` that mines: the answer names as many hashes as were asked for,
  -- and the chain has grown by as many blocks.
  pub record Mined (height : N → ℕ) (count : ℕ) (n : N) (answer : Option Raw × N) : Type 0 where
    pub raw : Raw
    pub answers : answer.0 ≡ some raw
    pub texts : List Text
    pub reads : library.unmarshal_texts raw ≡ some texts
    pub hashes : List Hash32
    pub parsed : Parsed texts hashes
    pub counted : length hashes ≡ count
    pub grown : height answer.1 ≡ height n + count

  -- What is documented of the packages and of a node for tests, whose best block has the height
  -- `height`.
  pub record IsRegtest (height : N → ℕ) : Type 0 where
    pub info : (n : N) → library.get_block_chain_info n ≡ (some (height n), n)
    pub numbers : (count : ℕ) → (raw : Raw) × (library.marshal_number count ≡ some raw)
    pub strings : (text : Text) → (raw : Raw) × (library.marshal_text text ≡ some raw)
    pub mines :
        (count : ℕ) (text : Text) (number address : Raw) (n : N)
        → library.marshal_number count ≡ some number
        → library.marshal_text text ≡ some address
        → Mined height count n
            (library.raw_request generate_to_address_method (number ∷ address ∷ []) n)

  chainhashes-Parsed :
      (texts : List Text) (hs : List Hash32) → Parsed texts hs → chainhashes library texts ≡ ok hs
  unfolding chainhashes
  chainhashes-Parsed [] [] p = refl
  chainhashes-Parsed [] (h ∷ hs) p = absurd p
  chainhashes-Parsed (t ∷ texts) [] p = absurd p
  chainhashes-Parsed (t ∷ texts) (h ∷ hs) p = ground (arith, p.0, chainhashes-Parsed texts hs p.1)

  -- The outcome of a call that mines.
  abbrev pub Grows : (N → ℕ) → ℕ → N → Result (List Hash32) × N → Type 0
  Grows height count n out =
      (hs : List Hash32) × (out.0 ≡ ok hs) × (length hs ≡ count) × (height out.1 ≡ height n + count)

  generate_to_address-Grows :
      (height : N → ℕ) (regtest : IsRegtest height) (count : ℕ) (address : Text) (n : N)
      → Grows height count n (generate_to_address library count address n)
  unfolding generate_to_address
  generate_to_address-Grows height regtest count address n =
      let (number, e) = regtest.numbers count in
      let (text, f) = regtest.strings address in
      let m = regtest.mines count address number text n e f in
      (
        m.hashes,
        ground (arith, e, f, m.answers, m.reads, chainhashes-Parsed m.texts m.hashes m.parsed),
        m.counted,
        ground (arith, e, f, m.answers, m.reads, m.grown),
      )

  -- On a node for tests that answers: generateToHeight succeeds, leaves the chain at the height
  -- that was asked for, or where it was if it was higher, and returns one hash for each new block.
  pub generate_to_height-Grows :
      (height : N → ℕ) (regtest : IsRegtest height) (target : ℕ) (address : Text) (n : N)
      → Grows height (target - height n) n (generate_to_height library address target n)
  unfolding generate_to_height generate_to_fixed_address
  generate_to_height-Grows height regtest target address n =
      elim (Bool-cases (leb target (height n))) [
        | inl high ↦
            rw (regtest.info n, high) ([], refl, ground (arith, high), ground (arith, high))
        | inr low ↦
            rw (regtest.info n, low)
              (generate_to_address-Grows height regtest (target - height n) address n)
      ]
