-- ===== src/Storage/Transactions/Ids.antt =====
-- `transactionDBIDs` against a search of the table.
use x_b10cslashbademeister.Common.{
  ℕ, ◌≡◌, ◌≢◌, refl, sym, ap, ◌∙◌, inl, inr, Bool-cases, true, Option, none, some, Option-cases,
  List, [], ◌∷◌, map, filter, filter-In, In-filter, In, arith, ℤ, pos, negsuc,
}
use x_b10cslashbademeister.Types.{Hash32, hash_eq, hash_eq_iff}
use x_b10cslashbademeister.Errors.{Result, ok}
use x_b10cslashbademeister.Storage.Database.{Database, TransactionRow}
use x_b10cslashbademeister.Storage.Database.Runs.{IsSound, statement_lem}
use x_b10cslashbademeister.Storage.Transactions.{
  contains_hash, dbid_by_txid, dbid_or_missing, transaction_dbids,
}
use x_b10cslashbademeister.Storage.Transactions.Upsert.{find_transaction}

-- The constraint UNIQUE on the column `txid`.
pub record UniqueTxids (rows : List TransactionRow) : Type 0 where
  pub unique : (r s : TransactionRow) → In r rows → In s rows → r.txid ≡ s.txid → r ≡ s

find_transaction-In :
    (h : Hash32) (rows : List TransactionRow) (r : TransactionRow)
    → find_transaction h rows ≡ some r
    → In r rows × (r.txid ≡ h)
unfolding find_transaction
find_transaction-In h [] r e = absurd (cc)
find_transaction-In h (q ∷ rows) r e = elim (Bool-cases (hash_eq q.txid h)) [
  | inl t ↦
      let same : r ≡ q = ground (arith, e, t) in
      (inl same, ap (λ (x : TransactionRow). x.txid) same ∙ (hash_eq_iff q.txid h).0 t)
  | inr t ↦ let rest = find_transaction-In h rows r (ground (arith, e, t)) in (inr rest.0, rest.1)
]

In-find_transaction :
    (h : Hash32) (rows : List TransactionRow) (r : TransactionRow)
    → In r rows
    → r.txid ≡ h
    → find_transaction h rows ≢ none
unfolding find_transaction
In-find_transaction h [] r i e none_found = i
In-find_transaction h (q ∷ rows) r (inl same) e none_found = ground (
  arith,
  none_found,
  (hash_eq_iff q.txid h).1 (ap (λ (x : TransactionRow). x.txid) (sym same) ∙ e),
)
In-find_transaction h (q ∷ rows) r (inr i) e none_found = elim (Bool-cases (hash_eq q.txid h)) [
  | inl t ↦ ground (arith, none_found, t)
  | inr t ↦ In-find_transaction h rows r i e (ground (arith, none_found, t))
]

dbid_by_txid-In :
    (h : Hash32) (rows : List TransactionRow) (id : ℕ)
    → dbid_by_txid rows h ≡ some id
    → (r : TransactionRow) × In r rows × (r.txid ≡ h) × (r.id ≡ id)
unfolding dbid_by_txid
dbid_by_txid-In h [] id e = absurd (cc)
dbid_by_txid-In h (q ∷ rows) id e = elim (Option-cases (dbid_by_txid rows h)) [
  | inr (id', f) ↦
      let (r, i, g, same) = dbid_by_txid-In h rows id' f in
      (r, inr i, g, ground (arith, e, f, same))
  | inl f ↦ elim (Bool-cases (hash_eq q.txid h)) [
    | inl t ↦ (q, inl refl, (hash_eq_iff q.txid h).0 t, ground (arith, e, f, t))
    | inr t ↦ absurd (ground (arith, e, f, t))
  ]
]

In-dbid_by_txid :
    (h : Hash32) (rows : List TransactionRow) (r : TransactionRow)
    → In r rows
    → r.txid ≡ h
    → dbid_by_txid rows h ≢ none
unfolding dbid_by_txid
In-dbid_by_txid h [] r i e none_found = i
In-dbid_by_txid h (q ∷ rows) r (inl same) e none_found = ground (
  arith,
  none_found,
  (hash_eq_iff q.txid h).1 (ap (λ (x : TransactionRow). x.txid) (sym same) ∙ e),
)
In-dbid_by_txid h (q ∷ rows) r (inr i) e none_found = elim (Option-cases (dbid_by_txid rows h)) [
  | inr (id, f) ↦ ground (arith, none_found, f)
  | inl f ↦ In-dbid_by_txid h rows r i e f
]

-- The id of a stored transaction, or -1.
abbrev pub stored_id : Option TransactionRow → ℤ
stored_id none = negsuc 0
stored_id (some r) = pos r.id

contains_hash-head : (h : Hash32) (txids : List Hash32) → In h txids → contains_hash h txids ≡ true
unfolding contains_hash
contains_hash-head h [] i = absurd i
contains_hash-head h (g ∷ txids) (inl e) = ground (arith, (hash_eq_iff g h).1 (sym e))
contains_hash-head h (g ∷ txids) (inr i) = ground (arith, contains_hash-head h txids i)

map_within :
    (txids all : List Hash32) (f g : Hash32 → ℤ)
    → ((h : Hash32) → In h txids → In h all)
    → ((h : Hash32) → In h all → f h ≡ g h)
    → map f txids ≡ map g txids
map_within [] all f g within same = refl
map_within (h ∷ txids) all f g within same =
    ground
      (arith, same h (within h (inl refl)), map_within txids all f g (λ k i. within k (inr i)) same)

module _ (txids : List Hash32) (db : Database) (sound : IsSound db.engine)
    (unique : UniqueTxids db.transactions) where
  visited : List TransactionRow
  visited = filter (λ r. contains_hash r.txid txids) (db.engine.scan_transactions db.transactions)

  visited-stored : (r : TransactionRow) → In r visited → In r db.transactions
  unfolding visited
  visited-stored r i = sound.transactions.visited r db.transactions (filter-In _ r _ i).0

  stored-visited :
      (h : Hash32) (r : TransactionRow)
      → In h txids
      → In r db.transactions
      → r.txid ≡ h
      → In r visited
  unfolding visited
  stored-visited h r j i e =
      In-filter _ r _ (sound.transactions.visits r db.transactions i)
        (rw e (contains_hash-head h txids j))

  one_id :
      (h : Hash32)
      → In h txids
      → dbid_or_missing (dbid_by_txid visited h) ≡ stored_id (find_transaction h db.transactions)
  unfolding dbid_or_missing
  one_id h j = elim (Option-cases (dbid_by_txid visited h)) [
    | inl e ↦ elim (Option-cases (find_transaction h db.transactions)) [
      | inl f ↦ rw (e, f) refl
      | inr (r, f) ↦
          let found = find_transaction-In h db.transactions r f in
          absurd (In-dbid_by_txid h visited r (stored-visited h r j found.0 found.1) found.1 e)
    ]
    | inr (id, e) ↦
        let (r, i, same, is_id) = dbid_by_txid-In h visited id e in
        elim (Option-cases (find_transaction h db.transactions)) [
          | inl f ↦ absurd (In-find_transaction h db.transactions r (visited-stored r i) same f)
          | inr (s, f) ↦
              let found = find_transaction-In h db.transactions s f in
              let one : r ≡ s =
                unique.unique r s (visited-stored r i) found.0 (same ∙ sym found.1) in
              rw (e, f) (ap pos (sym is_id ∙ ap (λ (x : TransactionRow). x.id) one))
        ]
  ]

  -- Where no txid is stored twice, and whatever the order in which the driver visits the rows:
  -- transactionDBIDs returns, in the order of its argument, the id of every transaction that is
  -- stored and -1 for every other, and changes nothing.
  pub transaction_dbids-stored :
      transaction_dbids txids db
      ≡ (ok (map (λ h. stored_id (find_transaction h db.transactions)) txids), db)
  unfolding transaction_dbids visited
  transaction_dbids-stored =
      rw (statement_lem, sound.no_faults)
        (ap (λ (ids : List ℤ). let r : Result (List ℤ) × Database = (ok ids, db) in r)
          (map_within txids txids _ _ (λ h i. i) one_id))
