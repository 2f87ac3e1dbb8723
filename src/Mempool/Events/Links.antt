-- ===== src/Mempool/Events/Links.antt =====
-- Which transactions the walks of `newBlockEvent` collect, and what `ApplyEvent` does with them,
-- by the links in the table "transaction_block".
use x_b10cslashbademeister.Common.{
  ℕ, ◌≡◌, ◌≢◌, refl, sym, In-map, map-In, ap, ◌⊎◌, inl, inr, true, Bool-cases, none, some, List, [],
  ◌∷◌, arith, ◌==◌, filter, filter-In, In-filter, In, In-append_cases, In-append_left,
  In-append_right, if◌then◌else◌,
}
use x_b10cslashbademeister.Types.{StoredBlock, StoredTransaction}
use x_b10cslashbademeister.Storage.Database.{Database, TransactionRow, LinkRow}
use x_b10cslashbademeister.Storage.Database.Runs.{IsSound}
use x_b10cslashbademeister.Storage.Transactions.{to_stored_transaction, linked_ids, contains}
use x_b10cslashbademeister.Mempool.{TransactionMap, put, delete}
use x_b10cslashbademeister.Mempool.Events.{add_all, remove_all}
use x_b10cslashbademeister.Mempool.Events.Branches.{gather, linked_transactions, linked_dbids}

-- A link between a transaction and a block of a list.
pub record IsLinkedTo (links : List LinkRow) (blocks : List StoredBlock) (id : ℕ) : Type 0 where
  pub block : StoredBlock
  pub link : LinkRow
  pub in_blocks : In block blocks
  pub in_links : In link links
  pub of_block : link.block_id ≡ block.dbid
  pub of_transaction : link.transaction_id ≡ id

linked_ids-In :
    (block_id id : ℕ) (links : List LinkRow)
    → In id (linked_ids block_id links)
    → (l : LinkRow) × In l links × (l.block_id ≡ block_id) × (l.transaction_id ≡ id)
unfolding linked_ids
linked_ids-In block_id id [] i = elim i [ ]
linked_ids-In block_id id (l ∷ links) i = elim (Bool-cases (l.block_id == block_id)) [
  | inl e ↦
      let j : (id ≡ l.transaction_id) ⊎ In id (linked_ids block_id links) = ground (arith, e, i) in
      elim j [
        | inl q ↦ (l, inl refl, ground (arith, e), sym q)
        | inr k ↦ let (m, a, b, c) = linked_ids-In block_id id links k in (m, inr a, b, c)
      ]
  | inr e ↦
      let k : In id (linked_ids block_id links) = ground (arith, e, i) in
      let (m, a, b, c) = linked_ids-In block_id id links k in (m, inr a, b, c)
]

In-linked_ids :
    (links : List LinkRow) (l : LinkRow)
    → In l links
    → In l.transaction_id (linked_ids l.block_id links)
unfolding linked_ids
In-linked_ids (k ∷ links) l (inl e) = rw e (ground arith)
In-linked_ids (k ∷ links) l (inr i) = ground (arith, In-linked_ids links l i)
In-linked_ids [] l i = elim i [ ]

pub contains-In : (id : ℕ) (ids : List ℕ) → contains id ids ≡ true → In id ids
unfolding contains
contains-In id [] e = cc
contains-In id (n ∷ ids) e = ground (arith, contains-In id ids)

pub In-contains : (id : ℕ) (ids : List ℕ) → In id ids → contains id ids ≡ true
unfolding contains
In-contains id (n ∷ ids) (inl e) = ground arith
In-contains id (n ∷ ids) (inr i) = ground (arith, In-contains id ids i)
In-contains id [] i = elim i [ ]

gather-In :
    {A : Type 0} (f : StoredBlock → List A) (x : A) (l : List StoredBlock)
    → In x (gather f l)
    → (b : StoredBlock) × In b l × In x (f b)
gather-In f x [] i = elim i [ ]
gather-In f x (b ∷ l) i = elim (In-append_cases x (f b) (gather f l) i) [
  | inl j ↦ (b, inl refl, j)
  | inr j ↦ let (c, k, m) = gather-In f x l j in (c, inr k, m)
]

In-gather :
    {A : Type 0} (f : StoredBlock → List A) (x : A) (l : List StoredBlock) (b : StoredBlock)
    → In b l
    → In x (f b)
    → In x (gather f l)
In-gather f x (c ∷ l) b (inl e) i = In-append_left x (f c) (gather f l) (rw (← e) i)
In-gather f x (c ∷ l) b (inr k) i = In-append_right x (f c) (gather f l) (In-gather f x l b k i)
In-gather f x [] b k i = elim k [ ]

-- `ApplyEvent` on one id.
pub remove_all-In :
    (ids : List ℕ) (m : TransactionMap) (id : ℕ)
    → remove_all ids m id ≡ (if contains id ids then none else m id)
unfolding remove_all contains
remove_all-In [] m id = refl
remove_all-In (n ∷ ids) m id = ground (arith, remove_all-In ids (delete n m) id)

pub add_all-none :
    (txs : List StoredTransaction) (m : TransactionMap) (id : ℕ)
    → ((tx : StoredTransaction) → In tx txs → tx.dbid ≢ id)
    → add_all txs m id ≡ m id
unfolding add_all
add_all-none [] m id h = refl
add_all-none (tx ∷ txs) m id h =
    ground (arith, h tx (inl refl), add_all-none txs (put tx.dbid tx m) id λ u i. h u (inr i))

pub add_all-some :
    (txs : List StoredTransaction) (m : TransactionMap) (tx : StoredTransaction)
    → ((u : StoredTransaction) → In u txs → u.dbid ≡ tx.dbid → u ≡ tx)
    → In tx txs ⊎ (m tx.dbid ≡ some tx)
    → add_all txs m tx.dbid ≡ some tx
unfolding add_all
add_all-some [] m tx h (inl i) = elim i [ ]
add_all-some [] m tx h (inr e) = e
add_all-some (u ∷ txs) m tx h known =
    add_all-some txs (put u.dbid u m) tx (λ v i. h v (inr i))
      (elim known [
        | inl (inl e) ↦ inr (rw (← e) (ground arith))
        | inl (inr i) ↦ inl i
        | inr e ↦ inr (elim (Bool-cases (tx.dbid == u.dbid)) [
          | inl q ↦ rw q (ap (λ (v : StoredTransaction). some v) (h u (inl refl) (ground arith)))
          | inr q ↦ rw q e
        ])
      ])

module _ (db : Database) (sound : IsSound db.engine) (l : List StoredBlock) where
  pub dbids-IsLinkedTo :
      (id : ℕ) → In id (gather (linked_dbids db) l) → IsLinkedTo db.transaction_blocks l id
  dbids-IsLinkedTo id i =
      let (b, j, k) = gather-In (linked_dbids db) id l i in
      let (link, a, e, q) =
        linked_ids-In b.dbid id (db.engine.scan_links db.transaction_blocks) k in
      record {
        block = b;
        link = link;
        in_blocks = j;
        in_links = sound.links.visited link db.transaction_blocks a;
        of_block = e;
        of_transaction = q;
      }

  pub IsLinkedTo-dbids :
      (id : ℕ) → IsLinkedTo db.transaction_blocks l id → In id (gather (linked_dbids db) l)
  IsLinkedTo-dbids id k = In-gather (linked_dbids db) id l k.block k.in_blocks (
      rw (← k.of_block, ← k.of_transaction)
        (In-linked_ids (db.engine.scan_links db.transaction_blocks) k.link
          (sound.links.visits k.link db.transaction_blocks k.in_links)))

  pub transactions-IsLinkedTo :
      (tx : StoredTransaction)
      → In tx (gather (linked_transactions db) l)
      → (r : TransactionRow) × In r db.transactions
        × (tx ≡ to_stored_transaction r)
        × IsLinkedTo db.transaction_blocks l r.id
  transactions-IsLinkedTo tx i =
      let (b, j, k) = gather-In (linked_transactions db) tx l i in
      let (r, a, e) =
        map-In to_stored_transaction tx
          (filter (λ r. contains r.id (linked_ids b.dbid db.transaction_blocks))
            (db.engine.scan_transactions db.transactions))
          k in
      let (c, d) =
        filter-In (λ r. contains r.id (linked_ids b.dbid db.transaction_blocks)) r
          (db.engine.scan_transactions db.transactions) a in
      let (link, f, g, h) =
        linked_ids-In b.dbid r.id db.transaction_blocks
          (contains-In r.id (linked_ids b.dbid db.transaction_blocks) d) in
      (
        r,
        sound.transactions.visited r db.transactions c,
        e,
        record {
          block = b;
          link = link;
          in_blocks = j;
          in_links = f;
          of_block = g;
          of_transaction = h;
        },
      )

  pub IsLinkedTo-transactions :
      (r : TransactionRow)
      → In r db.transactions
      → IsLinkedTo db.transaction_blocks l r.id
      → In (to_stored_transaction r) (gather (linked_transactions db) l)
  IsLinkedTo-transactions r i k =
      In-gather (linked_transactions db) (to_stored_transaction r) l k.block k.in_blocks (
        In-map to_stored_transaction r _ (
          In-filter (λ r. contains r.id (linked_ids k.block.dbid db.transaction_blocks)) r
            (db.engine.scan_transactions db.transactions)
            (sound.transactions.visits r db.transactions i)
            (In-contains r.id _ (
              rw (← k.of_block, ← k.of_transaction)
                (In-linked_ids db.transaction_blocks k.link k.in_links)))))
