-- ===== src/Mempool/Create/View.antt =====
-- The mempool that `newMempoolWithoutBlock` builds against what the table says of a time.
use x_b10cslashbademeister.Common.{
  map-In, In-map, ℕ, ◌≤◌, ◌<◌, ◌≡◌, refl, sym, ap, ◌∙◌, ◌↔◌, ◌⊎◌, inl, inr, Bool-cases, Option,
  none, some, Option-cases, List, [], ◌∷◌, map, ◌==◌, filter, filter-In, In-filter, In, arith,
}
use x_b10cslashbademeister.Types.{Time, at_second, after, StoredTransaction}
use x_b10cslashbademeister.Errors.{Result, ok}
use x_b10cslashbademeister.Storage.Database.{Database, TransactionRow, format_query}
use x_b10cslashbademeister.Storage.Database.Runs.{IsSound, statement_lem}
use x_b10cslashbademeister.Storage.Transactions.{
  to_stored_transaction, query_transactions, query_by_time,
}
use x_b10cslashbademeister.Mempool.{Mempool, TransactionMap, empty_map, put}
use x_b10cslashbademeister.Mempool.Events.{add_all}
use x_b10cslashbademeister.Mempool.Events.Links.{add_all-some}
use x_b10cslashbademeister.Storage.Chain.Linked.{HasChains}
use x_b10cslashbademeister.Mempool.Buffers.Window.{not_filled}
use x_b10cslashbademeister.Mempool.Events.Next.{IsReady}
use x_b10cslashbademeister.Mempool.Events.Reorg.{UniqueIds}
use x_b10cslashbademeister.Mempool.Create.{
  transaction_buffer_size, block_buffer_size, last_seen, transactions_by_dbid,
  new_mempool_without_block,
}

-- A stored transaction that had been seen at a time, and whose column last_removed, as the table has
-- it now, is null or later than the time. A block may have removed it before, on a branch that was
-- given up since.
pub record Waits (rows : List TransactionRow) (t : Time) (id : ℕ) (tx : StoredTransaction)
    : Type 0 where
  pub row : TransactionRow
  pub in_rows : In row rows
  pub same_id : row.id ≡ id
  pub same : to_stored_transaction row ≡ tx
  pub seen : row.first_seen ≤ t.sec
  pub not_removed : (sec : ℕ) → row.last_removed ≡ some sec → t.sec < sec

add_all-from :
    (txs : List StoredTransaction) (m : TransactionMap) (id : ℕ) (tx : StoredTransaction)
    → add_all txs m id ≡ some tx
    → (In tx txs × (tx.dbid ≡ id)) ⊎ (m id ≡ some tx)
unfolding add_all
add_all-from [] m id tx e = inr e
add_all-from (u ∷ txs) m id tx e = elim (add_all-from txs (put u.dbid u m) id tx e) [
  | inl (i, same) ↦ inl (inr i, same)
  | inr f ↦ elim (Bool-cases (id == u.dbid)) [
    | inl here ↦
        let one : tx ≡ u = ground (arith, f, here) in inl (inl one, ground (arith, here, one))
    | inr other ↦ inr (ground (arith, f, other))
  ]
]

module _ (t : Time) (db : Database) (sound : IsSound db.engine) where
  abbrev found : List TransactionRow
  found =
      filter (query_by_time (some t) (some t)).condition
        (db.engine.scan_transactions db.transactions)

  found_lem :
      query_transactions (query_by_time (some t) (some t)) db
      ≡ (ok (map to_stored_transaction found), db)
  unfolding query_transactions query_by_time format_query
  found_lem = rw (statement_lem, sound.no_faults) refl

  found-Waits :
      (r : TransactionRow) → In r found → Waits db.transactions t r.id (to_stored_transaction r)
  unfolding query_by_time
  found-Waits r i =
      let f = filter-In _ r _ i in
      record {
        row = r;
        in_rows = sound.transactions.visited r db.transactions f.0;
        same_id = refl;
        same = refl;
        seen = ground (arith, f.1);
        not_removed = λ sec e. ground (arith, f.1, e);
      }

  Waits-found :
      (id : ℕ) (tx : StoredTransaction) (w : Waits db.transactions t id tx) → In w.row found
  unfolding query_by_time
  Waits-found id tx w =
      In-filter _ w.row _ (sound.transactions.visits w.row db.transactions w.in_rows)
        (elim (Option-cases w.row.last_removed) [
          | inl e ↦ ground (arith, e, w.seen)
          | inr (sec, e) ↦ ground (arith, e, w.seen, w.not_removed sec e)
        ])

  abbrev view : List StoredTransaction
  view = map to_stored_transaction found

  view-Waits : (tx : StoredTransaction) → In tx view → Waits db.transactions t tx.dbid tx
  unfolding to_stored_transaction
  view-Waits tx i =
      let (r, j, e) = map-In to_stored_transaction tx found i in rw e (found-Waits r j)

  Waits-view :
      (id : ℕ) (tx : StoredTransaction)
      → Waits db.transactions t id tx
      → In tx view × (tx.dbid ≡ id)
  unfolding to_stored_transaction
  Waits-view id tx w = (
    rw⁻¹ w.same (In-map to_stored_transaction w.row found (Waits-found id tx w)),
    ap (λ (u : StoredTransaction). u.dbid) (sym w.same) ∙ w.same_id,
  )

  module _ (keys : UniqueIds db.transactions) where
    one-entry : (tx u : StoredTransaction) → In tx view → In u view → u.dbid ≡ tx.dbid → u ≡ tx
    one-entry tx u i j e =
        let w = view-Waits tx i in
        let v = view-Waits u j in
        sym v.same
        ∙ ap to_stored_transaction
            (keys.unique_id v.row w.row v.in_rows w.in_rows (v.same_id ∙ e ∙ sym w.same_id))
        ∙ w.same

    -- An entry of the map is one of the rows, and each of the rows has its entry.
    map-Waits :
        (id : ℕ) (tx : StoredTransaction)
        → (add_all view empty_map id ≡ some tx) ↔ Waits db.transactions t id tx
    map-Waits id tx = (
      λ e. elim (add_all-from view empty_map id tx e) [
        | inl (i, same) ↦ rw (← same) (view-Waits tx i)
        | inr f ↦ absurd (cc)
      ],
      λ w.
          let here = Waits-view id tx w in
          rw (← here.1)
            (add_all-some view empty_map tx (λ u i e. one-entry tx u here.0 i e) (inl here.0)),
    )

    made : Mempool
    made = record {
      time = elim (last_seen none view) [ none ↦ at_second 0 | some tx ↦ tx.first_seen ];
      last_block = none;
      next_blocks = [];
      next_block_buffer_size = block_buffer_size;
      last_transaction = last_seen none view;
      next_transactions = [];
      next_transactions_buffer_size = transaction_buffer_size;
      transactions = add_all view empty_map;
    }

    latest-In :
        (last : Option StoredTransaction) (txs : List StoredTransaction) (tx : StoredTransaction)
        → last_seen last txs ≡ some tx
        → (last ≡ some tx) ⊎ In tx txs
    unfolding last_seen
    latest-In last [] tx e = inl e
    latest-In none (u ∷ txs) tx e = elim (latest-In (some u) txs tx e) [
      | inl f ↦ inr (inl (ground (arith, f)))
      | inr i ↦ inr (inr i)
    ]
    latest-In (some v) (u ∷ txs) tx e = elim (Bool-cases (after u.first_seen v.first_seen)) [
      | inl later ↦ ground (arith, later, latest-In (some u) txs tx, e)
      | inr earlier ↦ ground (arith, earlier, latest-In (some v) txs tx, e)
    ]

    made-time : (made.time.nsec ≡ 0) × (made.time.sec ≤ t.sec)
    unfolding made to_stored_transaction
    made-time = elim (Option-cases (last_seen none view)) [
      | inl e ↦ rw (e, made) (refl, omega arith)
      | inr (tx, e) ↦ elim (latest-In none view tx e) [
        | inl f ↦ absurd (cc)
        | inr i ↦ let w = view-Waits tx i in rw (e, ← w.same, made) (refl, w.seen)
      ]
    ]

-- A mempool built for a time: the run that returns it, its entries, and what the methods rely on.
pub record Built (db : Database) (t : Time) (out : Result Mempool × Database) : Type 0 where
  pub mempool : Mempool
  pub returns : out ≡ (ok mempool, db)
  pub entries :
      (id : ℕ) (tx : StoredTransaction)
      → (mempool.transactions id ≡ some tx) ↔ Waits db.transactions t id tx
  pub ready : IsReady (record { mempool = mempool; db = db })
  pub not_past : mempool.time.sec ≤ t.sec
  pub no_block : mempool.last_block ≡ none

-- newMempoolWithoutBlock, on chains and where no statement fails: the map has an entry for exactly
-- the stored transactions that had been seen at the time and whose column last_removed, as the
-- table has it now, is null or later than the time, whatever the order in which the driver visits
-- the rows; nothing changes in the tables, and the mempool, whose time is not past the one asked
-- for, is as Seek and NextEvent rely on.
pub new_mempool_without_block-Built :
    (t : Time) (db : Database)
    → HasChains db
    → UniqueIds db.transactions
    → Built db t (new_mempool_without_block t db)
unfolding new_mempool_without_block transactions_by_dbid made
new_mempool_without_block-Built t db chains keys = record {
  mempool = made t db chains.sound keys;
  returns = rw (found_lem t db chains.sound) refl;
  entries = map-Waits t db chains.sound keys;
  ready = record {
    chains = chains;
    whole = (made-time t db chains.sound keys).0;
    n = 4095;
    m = 3;
    transaction_size = refl;
    block_size = refl;
    transactions_ahead = not_filled;
    blocks_ahead = not_filled;
    last = λ b e. absurd (cc);
  };
  not_past = (made-time t db chains.sound keys).1;
  no_block = refl;
}
