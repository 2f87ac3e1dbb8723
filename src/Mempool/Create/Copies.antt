-- ===== src/Mempool/Create/Copies.antt =====
-- Copies of a mempool, and its transactions as a list.
use x_b10cslashbademeister.Common.{
  ℕ, ◌≡◌, ◌≢◌, refl, sym, ◌↔◌, inl, inr, true, false, some, Option-cases, List, [], ◌∷◌, In, ◌==◌,
  if◌then◌else◌, arith,
}
use x_b10cslashbademeister.Types.{Time, Transaction, StoredTransaction}
use x_b10cslashbademeister.Errors.{ok}
use x_b10cslashbademeister.Storage.Database.{Database}
use x_b10cslashbademeister.Mempool.{Mempool, TransactionMap}
use x_b10cslashbademeister.Mempool.Create.{
  Held, held, clone, transactions_of, new_mempool_without_block,
}
use x_b10cslashbademeister.Mempool.Create.View.{Waits, new_mempool_without_block-Built}
use x_b10cslashbademeister.Storage.Chain.Linked.{HasChains}
use x_b10cslashbademeister.Mempool.Events.Reorg.{UniqueIds}

-- A write to the map at a place.
abbrev pub write : ℕ → (TransactionMap → TransactionMap) → (ℕ → TransactionMap) → ℕ → TransactionMap
write place f maps q = if q == place then f (maps q) else maps q

-- A clone, made in a place that the mempool does not use, is the same mempool; a write to the map
-- of the one, as ApplyEvent makes it, does not show in the other.
pub clone-Separate :
    (next_map : ℕ) (m : Held) (maps : ℕ → TransactionMap) (f : TransactionMap → TransactionMap)
    → m.map_at ≢ next_map
    → (held (clone next_map m maps).0 (clone next_map m maps).1 ≡ held m maps)
      × (held m (clone next_map m maps).1 ≡ held m maps)
      × (held m (write next_map f (clone next_map m maps).1) ≡ held m maps)
      × (held (clone next_map m maps).0 (write m.map_at f (clone next_map m maps).1) ≡ held m maps)
unfolding clone
clone-Separate next_map m maps f apart =
    let e : (m.map_at == next_map) ≡ false = ground (arith, apart) in
    let e' : (next_map == m.map_at) ≡ false = ground (arith, apart) in
    let e'' : (next_map == next_map) ≡ true = ground arith in
    (rw e'' refl, rw e refl, rw e refl, rw (e', e'') refl)

-- The keys that a `range` over the map visits.
pub record IsKeys (ids : List ℕ) (m : Mempool) : Type 0 where
  pub keys : (id : ℕ) → In id ids ↔ ((tx : StoredTransaction) × (m.transactions id ≡ some tx))

transactions_of-In :
    (ids : List ℕ) (m : Mempool) (tx : Transaction)
    → In tx (transactions_of ids m)
    → (id : ℕ) × (stx : StoredTransaction) × (m.transactions id ≡ some stx) × (stx.transaction ≡ tx)
unfolding transactions_of
transactions_of-In [] m tx i = absurd i
transactions_of-In (id ∷ ids) m tx i = elim (Option-cases (m.transactions id)) [
  | inl e ↦ transactions_of-In ids m tx (rw (e, transactions_of) at i)
  | inr (stx, e) ↦
      let j : In tx (stx.transaction ∷ transactions_of ids m) = rw (e, transactions_of) at i in
      elim j [ inl same ↦ (id, stx, e, sym same) | inr k ↦ transactions_of-In ids m tx k ]
]

In-transactions_of :
    (ids : List ℕ) (m : Mempool) (id : ℕ) (stx : StoredTransaction)
    → In id ids
    → m.transactions id ≡ some stx
    → In stx.transaction (transactions_of ids m)
unfolding transactions_of
In-transactions_of [] m id stx i e = absurd i
In-transactions_of (key ∷ ids) m id stx (inl same) e =
    let here : m.transactions key ≡ some stx = rw (← same) e in
    rw (here, transactions_of) (inl refl)
In-transactions_of (key ∷ ids) m id stx (inr i) e =
    let rest = In-transactions_of ids m id stx i e in
    elim (Option-cases (m.transactions key)) [
      | inl f ↦ rw (f, transactions_of) rest
      | inr (other, f) ↦ rw (f, transactions_of) (inr rest)
    ]

-- On chains and where no statement fails, in whatever order the keys of the map are visited: the
-- list that Transactions returns of a mempool that newMempoolWithoutBlock has built for a time has
-- exactly the stored transactions that had been seen then and whose column last_removed is null
-- or later.
pub transactions_of-Waits :
    (db : Database) (t : Time) (m : Mempool)
    → HasChains db
    → UniqueIds db.transactions
    → new_mempool_without_block t db ≡ (ok m, db)
    → (ids : List ℕ) → IsKeys ids m
    → (tx : Transaction)
    → In tx (transactions_of ids m) ↔ (
        (id : ℕ) × (stx : StoredTransaction) × Waits db.transactions t id stx
        × (stx.transaction ≡ tx))
transactions_of-Waits db t m chains unique run ids visited tx =
    let built = new_mempool_without_block-Built t db chains unique in
    let same : built.mempool ≡ m = cc (built.returns, run) in
    let entries : (id : ℕ) (stx : StoredTransaction)
        → (m.transactions id ≡ some stx) ↔ Waits db.transactions t id stx =
      rw (← same) built.entries in
    (
      λ i.
          let (id, stx, e, found) = transactions_of-In ids m tx i in
          (id, stx, (entries id stx).0 e, found),
      λ w.
          let (id, stx, waits, found) = w in
          let e = (entries id stx).1 waits in
          rw (← found) (In-transactions_of ids m id stx ((visited.keys id).1 (stx, e)) e),
    )
