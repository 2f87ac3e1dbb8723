-- ===== src/Storage/Transactions.antt =====
-- src/storage/storage_transaction.go: the methods over the table "transaction", and the rows of
-- "transaction_block" for a block.
pub mod Ids
pub mod Upsert
use x_b10cslashbademeister.Common.{
  ℕ, Bool, true, false, ◌&&◌, ◌||◌, Option, none, some, List, [], ◌∷◌, ◌++◌, map, ltb, leb, ◌==◌,
  if◌then◌else◌, filter, head?, length, ℤ, pos, negsuc,
}
use x_b10cslashbademeister.Types.{Time, at_second, Hash32, hash_eq, Transaction, StoredTransaction}
use x_b10cslashbademeister.Errors.{
  ok, err, syntax_error, engine_failure, inserting_transactions, getting_dbids,
}
use x_b10cslashbademeister.Storage.Database.{
  Database, TransactionRow, LinkRow, Engine, Exec, pure, fail, ◌>>=◌, wrap_exec, statement, Query,
  format_query, next_rowid,
}

-- `TxIterator.Next`: a row as a transaction.
unfoldable pub to_stored_transaction : TransactionRow → StoredTransaction
to_stored_transaction r = record {
  dbid = r.id;
  transaction = record {
    tx_id = r.txid;
    first_seen = at_second r.first_seen;
    last_removed = elim r.last_removed [ none ↦ none | some s ↦ some (at_second s) ];
    fee = r.fee;
    weight = r.weight;
  };
}

unfoldable pub has_txid : Hash32 → List TransactionRow → Bool
has_txid h [] = false
has_txid h (r ∷ rows) = hash_eq r.txid h || has_txid h rows

-- ON CONFLICT(txid) DO UPDATE SET first_seen … WHERE first_seen > excluded.first_seen
unfoldable pub lower_first_seen : Hash32 → ℕ → List TransactionRow → List TransactionRow
lower_first_seen h sec [] = []
lower_first_seen h sec (r ∷ rows) =
    (if hash_eq r.txid h && ltb sec r.first_seen then record r { first_seen = sec } else r)
    ∷ lower_first_seen h sec rows

unfoldable pub transaction_ids : List TransactionRow → List ℕ
transaction_ids = map (λ r. r.id)

unfoldable pub row_of : ℕ → Transaction → TransactionRow
row_of id tx = record {
  id = id;
  txid = tx.tx_id;
  first_seen = tx.first_seen.sec;
  last_removed = none;
  fee = tx.fee;
  weight = tx.weight;
}

-- One tuple of VALUES. Only a row that is new sets the last rowid.
unfoldable pub upsert_transaction : Database → Transaction → Database
unfolding has_txid lower_first_seen transaction_ids row_of
upsert_transaction db tx =
    if has_txid tx.tx_id db.transactions
    then record db { transactions = lower_first_seen tx.tx_id tx.first_seen.sec db.transactions }
    else let id = next_rowid (transaction_ids db.transactions) in
      record db { transactions = db.transactions ++ row_of id tx ∷ []; last_rowid = id }

unfoldable pub upsert_transactions : Database → List Transaction → Database
upsert_transactions db [] = db
upsert_transactions db (tx ∷ txs) = upsert_transactions (upsert_transaction db tx) txs

-- With no transaction the text has nothing behind VALUES, which is no SQL. The result is
-- LastInsertId.
unfoldable pub insert_values : List Transaction → Exec ℕ
unfolding upsert_transactions
insert_values [] = fail syntax_error
insert_values (tx ∷ txs) =
    λ db. let db' = upsert_transactions db (tx ∷ txs) in (ok db'.last_rowid, db')

unfoldable pub insert_transactions : List Transaction → Exec ℕ
unfolding insert_values
insert_transactions txs = wrap_exec inserting_transactions (statement (insert_values txs))

unfoldable pub insert_transaction : Transaction → Exec ℕ
insert_transaction tx = insert_transactions (tx ∷ [])

unfoldable pub contains_hash : Hash32 → List Hash32 → Bool
contains_hash h [] = false
contains_hash h (g ∷ gs) = hash_eq g h || contains_hash h gs

-- The map `dbidByTXID` that the rows fill: the last row with a txid counts.
unfoldable pub dbid_by_txid : List TransactionRow → Hash32 → Option ℕ
dbid_by_txid [] h = none
dbid_by_txid (r ∷ rows) h = elim (dbid_by_txid rows h) [
  | some dbid ↦ some dbid
  | none ↦ if hash_eq r.txid h then some r.id else none
]

dbid_or_missing : Option ℕ → ℤ
dbid_or_missing (some dbid) = pos dbid
dbid_or_missing none = negsuc 0

-- The ids in the order of the argument, with -1 for a transaction that is not stored.
unfoldable pub transaction_dbids : List Hash32 → Exec (List ℤ)
unfolding dbid_or_missing contains_hash dbid_by_txid
transaction_dbids txids = wrap_exec getting_dbids (
    statement λ db.
      let rows =
        filter (λ r. contains_hash r.txid txids) (db.engine.scan_transactions db.transactions) in
      (ok (map (λ h. dbid_or_missing (dbid_by_txid rows h)) txids), db))

-- SELECT transaction_id FROM "transaction_block" WHERE block_id = ?
unfoldable pub linked_ids : ℕ → List LinkRow → List ℕ
linked_ids block_id [] = []
linked_ids block_id (l ∷ links) =
    let rest = linked_ids block_id links in
    if l.block_id == block_id then l.transaction_id ∷ rest else rest

unfoldable pub contains : ℕ → List ℕ → Bool
contains n [] = false
contains n (m ∷ ms) = m == n || contains n ms

-- `TransactionsInBlock`, with the iterator collected.
unfoldable pub transactions_in_block : ℕ → Exec (List StoredTransaction)
unfolding linked_ids contains
transactions_in_block block_id = statement λ db.
    let ids = linked_ids block_id db.transaction_blocks in
    (
      ok (
          map to_stored_transaction
            (filter (λ r. contains r.id ids) (db.engine.scan_transactions db.transactions))),
      db,
    )

unfoldable pub transaction_dbids_in_block : ℕ → Exec (List ℕ)
unfolding linked_ids
transaction_dbids_in_block block_id =
    statement λ db. (ok (linked_ids block_id (db.engine.scan_links db.transaction_blocks)), db)

unfoldable pub query_transactions : Query TransactionRow → Exec (List StoredTransaction)
query_transactions q = statement λ db. (
  ok (map to_stored_transaction (format_query q (db.engine.scan_transactions db.transactions))),
  db,
)

-- `TransactionQueryByTime`: the two limits are optional, and joined by AND.
unfoldable pub query_by_time : Option Time → Option Time → Query TransactionRow
query_by_time first_seen_before_or_at last_removed_after = record {
  condition = λ r.
      elim first_seen_before_or_at [ none ↦ true | some t ↦ leb r.first_seen t.sec ]
      && elim last_removed_after [
        | none ↦ true
        | some t ↦ elim r.last_removed [ none ↦ true | some s ↦ ltb t.sec s ]
      ];
  order = none;
  limit = 0;
}

unfoldable pub transaction_by_id : Hash32 → Exec (Option StoredTransaction)
unfolding query_transactions
transaction_by_id txid = do
  found ←
      query_transactions (record { condition = λ r. hash_eq r.txid txid; order = none; limit = 1 })
  pure (head? found)

-- ORDER BY first_seen ASC, id ASC
unfoldable pub earlier_transaction : TransactionRow → TransactionRow → Bool
earlier_transaction r s =
    ltb r.first_seen s.first_seen || (r.first_seen == s.first_seen && ltb r.id s.id)

unfoldable pub next_transactions : Time → ℕ → ℕ → Exec (List StoredTransaction)
unfolding query_transactions
next_transactions t dbid limit = query_transactions (record {
  condition = λ r. ltb t.sec r.first_seen || (r.first_seen == t.sec && ltb dbid r.id);
  order = some earlier_transaction;
  limit = limit;
})

-- `TxCount`
unfoldable pub tx_count : Exec ℕ
tx_count = statement λ db. (ok (length db.transactions), db)
