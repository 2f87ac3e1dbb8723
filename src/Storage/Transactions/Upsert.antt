-- ===== src/Storage/Transactions/Upsert.antt =====
-- `InsertTransactions` against the map from a txid to the earliest time at which it was seen.
use x_b10cslashbademeister.Common.{
  ℕ, ◌≡◌, refl, true, false, Option, none, some, List, [], ◌∷◌, ◌++◌, arith, min, if◌then◌else◌,
}
use x_b10cslashbademeister.Types.{Hash32, hash_eq, hash_eq_iff, Transaction}
use x_b10cslashbademeister.Errors.{ok}
use x_b10cslashbademeister.Storage.Database.{Database, TransactionRow, next_rowid}
use x_b10cslashbademeister.Storage.Database.Runs.{IsSound, statement_lem}
use x_b10cslashbademeister.Storage.Transactions.{
  has_txid, lower_first_seen, row_of, transaction_ids, upsert_transaction, upsert_transactions,
  insert_transactions,
}

-- The first row with a txid.
unfoldable pub find_transaction : Hash32 → List TransactionRow → Option TransactionRow
find_transaction h [] = none
find_transaction h (r ∷ rows) = if hash_eq r.txid h then some r else find_transaction h rows

-- The row with a lower first_seen, if the time is earlier.
abbrev pub seen_at : ℕ → TransactionRow → TransactionRow
seen_at sec r = record r { first_seen = min r.first_seen sec }

has_txid-find :
    (h : Hash32) (rows : List TransactionRow)
    → has_txid h rows ≡ elim (find_transaction h rows) [ none ↦ false | some r ↦ true ]
unfolding has_txid find_transaction
has_txid-find h [] = refl
has_txid-find h (r ∷ rows) = ground (arith, has_txid-find h rows)

abbrev seen_opt : ℕ → Option TransactionRow → Option TransactionRow
seen_opt sec none = none
seen_opt sec (some r) = some (seen_at sec r)

find-lower_same :
    (h : Hash32) (sec : ℕ) (rows : List TransactionRow)
    → find_transaction h (lower_first_seen h sec rows) ≡ seen_opt sec (find_transaction h rows)
unfolding find_transaction lower_first_seen
find-lower_same h sec [] = refl
find-lower_same h sec (r ∷ rows) = ground (arith, find-lower_same h sec rows)

find-lower_other :
    (g h : Hash32) (sec : ℕ) (rows : List TransactionRow)
    → hash_eq g h ≡ false
    → find_transaction h (lower_first_seen g sec rows) ≡ find_transaction h rows
unfolding find_transaction lower_first_seen
find-lower_other g h sec [] other = refl
find-lower_other g h sec (r ∷ rows) other = ground (
  arith,
  hash_eq_iff r.txid g,
  hash_eq_iff g h,
  hash_eq_iff r.txid h,
  find-lower_other g h sec rows,
)

find-append :
    (h : Hash32) (rows : List TransactionRow) (r : TransactionRow)
    → find_transaction h (rows ++ r ∷ []) ≡ elim (find_transaction h rows) [
      | some s ↦ some s
      | none ↦ if hash_eq r.txid h then some r else none
    ]
unfolding find_transaction
find-append h [] r = refl
find-append h (s ∷ rows) r = ground (arith, find-append h rows r)

-- What a tuple leaves under its txid.
abbrev pub upserted : ℕ → Transaction → Option TransactionRow → TransactionRow
upserted id tx none = row_of id tx
upserted id tx (some r) = seen_at tx.first_seen.sec r

pub upsert_transaction-find :
    (h : Hash32) (db : Database) (tx : Transaction)
    → find_transaction h (upsert_transaction db tx).transactions ≡ (
        if hash_eq tx.tx_id h
        then some (
            upserted
              (next_rowid (transaction_ids db.transactions))
              tx
              (find_transaction h db.transactions))
        else find_transaction h db.transactions)
unfolding upsert_transaction row_of
upsert_transaction-find h db tx =
    let rows = db.transactions in
    let id = next_rowid (transaction_ids rows) in
    ground (
      arith,
      hash_eq_iff tx.tx_id h,
      has_txid-find tx.tx_id rows,
      find-append h rows (row_of id tx),
      find-lower_same h tx.first_seen.sec rows,
      find-lower_other tx.tx_id h tx.first_seen.sec rows,
    )

-- The earliest time at which the list has a txid.
unfoldable pub earliest : Hash32 → List Transaction → Option ℕ
earliest h [] = none
earliest h (tx ∷ txs) =
    let rest = earliest h txs in
    if hash_eq tx.tx_id h
    then elim rest [ none ↦ some tx.first_seen.sec | some sec ↦ some (min tx.first_seen.sec sec) ]
    else rest

-- The earlier of two times, where there are any.
abbrev pub earlier_of : Option ℕ → Option ℕ → Option ℕ
earlier_of none b = b
earlier_of (some a) none = some a
earlier_of (some a) (some b) = some (min a b)

unfoldable pub first_seen_at : Hash32 → Database → Option ℕ
first_seen_at h db = elim (find_transaction h db.transactions) [
  | none ↦ none
  | some r ↦ some r.first_seen
]

upsert_transactions-first_seen :
    (h : Hash32) (db : Database) (txs : List Transaction)
    → first_seen_at h (upsert_transactions db txs)
      ≡ earlier_of (first_seen_at h db) (earliest h txs)
unfolding upsert_transactions first_seen_at earliest row_of
upsert_transactions-first_seen h db [] = ground arith
upsert_transactions-first_seen h db (tx ∷ txs) = ground (
  arith,
  upsert_transaction-find h db tx,
  upsert_transactions-first_seen h (upsert_transaction db tx) txs,
)

-- A stored transaction keeps its id, its fee, its weight and its last_removed.
record SameRecord (r s : TransactionRow) : Type 0 where
  pub id : s.id ≡ r.id
  pub txid : s.txid ≡ r.txid
  pub last_removed : s.last_removed ≡ r.last_removed
  pub fee : s.fee ≡ r.fee
  pub weight : s.weight ≡ r.weight

upsert_transactions-SameRecord :
    (h : Hash32) (db : Database) (txs : List Transaction) (r : TransactionRow)
    → find_transaction h db.transactions ≡ some r
    → (s : TransactionRow) × (find_transaction h (upsert_transactions db txs).transactions ≡ some s)
      × SameRecord r s
unfolding upsert_transactions
upsert_transactions-SameRecord h db [] r e =
    (r, e, record { id = refl; txid = refl; last_removed = refl; fee = refl; weight = refl })
upsert_transactions-SameRecord h db (tx ∷ txs) r e =
    let kept = if hash_eq tx.tx_id h then seen_at tx.first_seen.sec r else r in
    let (s, found, same) =
      upsert_transactions-SameRecord h (upsert_transaction db tx) txs kept
        (ground (arith, upsert_transaction-find h db tx)) in
    (s, found, ground arith)

module _ (db : Database) (sound : IsSound db.engine) (tx : Transaction)
    (txs : List Transaction) where
  insert_transactions_lem :
      insert_transactions (tx ∷ txs) db
      ≡ (ok (upsert_transactions db (tx ∷ txs)).last_rowid, upsert_transactions db (tx ∷ txs))
  unfolding insert_transactions
  insert_transactions_lem = rw (statement_lem, sound.no_faults)

  -- If no statement fails, inserting one or more transactions succeeds, and afterwards the time
  -- stored for any txid is the earliest of the time stored before and of all the times that the
  -- list has for it.
  pub insert_transactions-first_seen :
      (h : Hash32)
      → (id : ℕ) × ((insert_transactions (tx ∷ txs) db).0 ≡ ok id)
        × (first_seen_at h (insert_transactions (tx ∷ txs) db).1
            ≡ earlier_of (first_seen_at h db) (earliest h (tx ∷ txs)))
  insert_transactions-first_seen h =
      rw insert_transactions_lem (_, refl, upsert_transactions-first_seen h db (tx ∷ txs))

  -- If no statement fails, a transaction that was stored under a txid is still found there after
  -- an insertion, with the id, the fee, the weight and the last_removed that it had.
  insert_transactions-SameRecord :
      (h : Hash32) (r : TransactionRow)
      → find_transaction h db.transactions ≡ some r
      → (s : TransactionRow) × (find_transaction h
            (insert_transactions (tx ∷ txs) db).1.transactions
          ≡ some s)
        × SameRecord r s
  insert_transactions-SameRecord h r e =
      rw insert_transactions_lem (upsert_transactions-SameRecord h db (tx ∷ txs) r e)
