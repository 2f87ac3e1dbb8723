-- ===== src/Rpc/Entries.antt =====
-- `RawMempoolToTransactions` on entries with well-formed hashes, and behind one that is not.
use mathlib.Core.List.{append_assoc, append-nil}
use x_b10cslashbademeister.Common.{
  ℕ, ◌<◌, ◌≡◌, ◌≢◌, refl, sym, ap, ◌∙◌, true, false, none, some, List, [], ◌∷◌, ◌++◌, map, length,
  ◌==◌, All, arith, suc, ◌⊎◌,
}
use x_b10cslashbademeister.Types.{at_second, Hash32, Transaction}
use x_b10cslashbademeister.Types.Hash.{IsHash, new_hash_from_bytes}
use x_b10cslashbademeister.Types.Hash.Hex.{to_string, decode_string, decode-to_string}
use x_b10cslashbademeister.Errors.{Result, ok}
use x_b10cslashbademeister.Rpc.{
  GetRawMempoolVerboseResult, transaction_of_entry, transactions_from, raw_mempool_to_transactions,
  satoshis,
}
use x_b10cslashbademeister.Rpc.Fees.{IsNear, satoshis-IsNear}

-- An entry of the map, under the text of a hash.
abbrev pub entry_of : Hash32 × GetRawMempoolVerboseResult → List ℕ × GetRawMempoolVerboseResult
entry_of (h, info) = (to_string h, info)

abbrev pub transaction_of : Hash32 × GetRawMempoolVerboseResult → Transaction
transaction_of (h, info) = record {
  tx_id = h;
  first_seen = at_second info.time;
  last_removed = none;
  fee = satoshis info.base_fee;
  weight = info.weight;
}

abbrev pub WellFormed : Hash32 × GetRawMempoolVerboseResult → Type 0
WellFormed (h, info) = IsHash h × All (λ b. b < 256) h.bytes

entry_some :
    (h : Hash32) (info : GetRawMempoolVerboseResult) (text bytes : List ℕ)
    → decode_string text ≡ some bytes
    → (length bytes == 32) ≡ true
    → new_hash_from_bytes bytes ≡ some h
    → transaction_of_entry (decode_string text) info ≡ ok (some (transaction_of (h, info)))
unfolding transaction_of_entry
entry_some h info text bytes d size n = rw d (rw (size, transaction_of_entry, n) refl)

entry_none :
    (info : GetRawMempoolVerboseResult) (text bytes : List ℕ)
    → decode_string text ≡ some bytes
    → (length bytes == 32) ≡ false
    → transaction_of_entry (decode_string text) info ≡ ok none
unfolding transaction_of_entry
entry_none info text bytes d size = rw d (rw (size, transaction_of_entry) refl)

step :
    (res : List Transaction) (h : Hash32) (info : GetRawMempoolVerboseResult)
    (rest : List (List ℕ × GetRawMempoolVerboseResult)) (text bytes : List ℕ)
    → decode_string text ≡ some bytes
    → (length bytes == 32) ≡ true
    → new_hash_from_bytes bytes ≡ some h
    → transactions_from res ((text, info) ∷ rest)
      ≡ transactions_from (res ++ transaction_of (h, info) ∷ []) rest
unfolding transactions_from
step res h info rest text bytes d size n =
    rw (entry_some h info text bytes d size n, transactions_from) refl

transactions_from-append :
    (res : List Transaction) (entries : List (Hash32 × GetRawMempoolVerboseResult))
    (rest : List (List ℕ × GetRawMempoolVerboseResult))
    → All WellFormed entries
    → transactions_from res (map entry_of entries ++ rest)
      ≡ transactions_from (res ++ map transaction_of entries) rest
unfolding transactions_from
transactions_from-append res [] rest w = rw append-nil refl
transactions_from-append res ((h, info) ∷ entries) rest w =
    let d = decode-to_string h w.0.0 w.0.1 in
    let size : (length h.bytes == 32) ≡ true = ground (arith, w.0.0.size) in
    step res h info (map entry_of entries ++ rest) (to_string h) h.bytes d.0 size d.1
    ∙ transactions_from-append (res ++ transaction_of (h, info) ∷ []) entries rest w.1
    ∙ ap (λ l. transactions_from l rest)
        (append_assoc res (transaction_of (h, info) ∷ []) (map transaction_of entries))

-- Transactions that are those of the entries, one after the other: the hash, the time and the
-- weight of the entry, never removed, and the amount for the entry as the fee, or one less.
abbrev pub Entered :
    (Hash32 × GetRawMempoolVerboseResult → ℕ)
    → List (Hash32 × GetRawMempoolVerboseResult)
    → List Transaction
    → Type 0
Entered amount [] [] = Unit
Entered amount [] (tx ∷ txs) = ⊥
Entered amount (entry ∷ entries) [] = ⊥
Entered amount (entry ∷ entries) (tx ∷ txs) =
    (((tx.tx_id ≡ entry.0)
        × (tx.first_seen ≡ at_second entry.1.time)
        × (tx.last_removed ≡ none)
        × (tx.weight ≡ entry.1.weight)
        × ((tx.fee ≡ amount entry) ⊎ (suc tx.fee ≡ amount entry)))
      × Entered amount entries txs)

abbrev pub Amounts :
    (Hash32 × GetRawMempoolVerboseResult → ℕ) → List (Hash32 × GetRawMempoolVerboseResult) → Type 0
Amounts amount entries = All (λ entry. IsNear entry.1.base_fee (amount entry)) entries

transactions-Entered :
    (amount : Hash32 × GetRawMempoolVerboseResult → ℕ)
    (entries : List (Hash32 × GetRawMempoolVerboseResult))
    → Amounts amount entries
    → Entered amount entries (map transaction_of entries)
transactions-Entered amount [] near = tt
transactions-Entered amount (entry ∷ entries) near = (
  (refl, refl, refl, refl, satoshis-IsNear entry.1.base_fee (amount entry) near.0),
  transactions-Entered amount entries near.1,
)

-- What `RawMempoolToTransactions` has returned is a list of the transactions of the entries.
pub record Converted (amount : Hash32 × GetRawMempoolVerboseResult → ℕ)
    (entries : List (Hash32 × GetRawMempoolVerboseResult)) (result : Result (List Transaction))
    : Type 0 where
  pub transactions : List Transaction
  pub returned : result ≡ ok transactions
  pub entered : Entered amount entries transactions

-- Entries whose keys are texts of 32-byte hashes, and whose fees are the numbers of the type float64
-- nearest to whole amounts of satoshis, become transactions in their order, with the hash of the
-- text, the time and the weight of the entry, never removed, and with the amount or one satoshi less
-- as the fee.
pub raw_mempool_to_transactions-map :
    (amount : Hash32 × GetRawMempoolVerboseResult → ℕ)
    (entries : List (Hash32 × GetRawMempoolVerboseResult))
    → All WellFormed entries
    → Amounts amount entries
    → Converted amount entries (raw_mempool_to_transactions (map entry_of entries))
unfolding raw_mempool_to_transactions transactions_from
raw_mempool_to_transactions-map amount entries w near = record {
  transactions = map transaction_of entries;
  returned =
      ap (transactions_from []) (sym (append-nil (map entry_of entries)))
      ∙ transactions_from-append [] entries [] w;
  entered = transactions-Entered amount entries near;
}

-- One key that is the text of bytes of another number than 32, behind well-formed entries, drops
-- every transaction, and no error is returned.
pub raw_mempool_to_transactions-wrong_size :
    (entries : List (Hash32 × GetRawMempoolVerboseResult)) (text bytes : List ℕ)
    (info : GetRawMempoolVerboseResult) (rest : List (List ℕ × GetRawMempoolVerboseResult))
    → All WellFormed entries
    → decode_string text ≡ some bytes
    → length bytes ≢ 32
    → raw_mempool_to_transactions (map entry_of entries ++ (text, info) ∷ rest) ≡ ok []
unfolding raw_mempool_to_transactions transactions_from
raw_mempool_to_transactions-wrong_size entries text bytes info rest w decoded other =
    let size : (length bytes == 32) ≡ false = ground (arith, other) in
    transactions_from-append [] entries ((text, info) ∷ rest) w
    ∙ rw (entry_none info text bytes decoded size, transactions_from) refl
