-- ===== src/Storage/Insert/Kept.antt =====
-- No method of Storage loses a transaction, whatever statements fail.
use x_b10cslashbademeister.Common.{
  ℕ, ◌≤◌, ◌≡◌, refl, ◌∙◌, inl, inr, Bool-cases, Option, some, List, [], ◌∷◌, arith, if◌then◌else◌,
}
use x_b10cslashbademeister.Types.{Hash32, hash_eq, Block, Transaction}
use x_b10cslashbademeister.Storage.Database.{Database, TransactionRow}
use x_b10cslashbademeister.Storage.Transactions.{
  contains, row_of, upsert_transaction, upsert_transactions,
}
use x_b10cslashbademeister.Storage.Transactions.Upsert.{
  find_transaction, seen_at, upsert_transaction-find,
}
use x_b10cslashbademeister.Storage.Insert.{set_last_removed, upsert_block, has_hash, add_links}
use x_b10cslashbademeister.Storage.Insert.Preserved.{IsPreserved, Upserts}

-- Every stored transaction is still there, under its id, with its fee and its weight, and its
-- first_seen is not later.
pub record Kept (rows rows' : List TransactionRow) : Type 0 where
  pub keeps :
      (h : Hash32) (r : TransactionRow)
      → find_transaction h rows ≡ some r
      → (s : TransactionRow) × (find_transaction h rows' ≡ some s)
        × (s.id ≡ r.id)
        × (s.fee ≡ r.fee)
        × (s.weight ≡ r.weight)
        × (s.first_seen ≤ r.first_seen)

same-Kept : (rows : List TransactionRow) → Kept rows rows
same-Kept rows = record { keeps = λ h r e. (r, e, refl, refl, refl, omega arith) }

trans-Kept : {a b c : List TransactionRow} → Kept a b → Kept b c → Kept a c
trans-Kept k l = record {
  keeps = λ h r e.
      let (s, f, i, fee, w, le) = k.keeps h r e in
      let (t, g, i', fee', w', le') = l.keeps h s f in
      (t, g, i' ∙ i, fee' ∙ fee, w' ∙ w, omega (arith, le, le'));
}

abbrev cleared : List ℕ → Option ℕ → TransactionRow → TransactionRow
cleared ids value q = if contains q.id ids then record q { last_removed = value } else q

set_last_removed-Kept :
    (ids : List ℕ) (value : Option ℕ) (rows : List TransactionRow)
    → Kept rows (set_last_removed ids value rows)
unfolding set_last_removed find_transaction
set_last_removed-Kept ids value [] = record { keeps = λ h r e. cc }
set_last_removed-Kept ids value (q ∷ rows) = record {
  keeps = λ h r e. elim (Bool-cases (hash_eq q.txid h)) [
    | inl t ↦ (
      cleared ids value q,
      ground (arith, t),
      ground (arith, t),
      ground (arith, t),
      ground (arith, t),
      ground (arith, t),
    )
    | inr t ↦
        let (s, f, i, fee, w, le) =
          (set_last_removed-Kept ids value rows).keeps h r (ground (arith, t, e)) in
        (s, ground (arith, t, f), i, fee, w, le)
  ];
}

upsert_transaction-Kept :
    (db : Database) (tx : Transaction)
    → Kept db.transactions (upsert_transaction db tx).transactions
unfolding row_of
upsert_transaction-Kept db tx = record {
  keeps = λ h r e.
      let look = upsert_transaction-find h db tx in
      elim (Bool-cases (hash_eq tx.tx_id h)) [
        | inl t ↦
            (seen_at tx.first_seen.sec r, ground (arith, t, e, look), refl, refl, refl, omega arith)
        | inr t ↦ (r, ground (arith, t, e, look), refl, refl, refl, omega arith)
      ];
}

upsert_transactions-Kept :
    (txs : List Transaction) (db : Database)
    → Kept db.transactions (upsert_transactions db txs).transactions
unfolding upsert_transactions
upsert_transactions-Kept [] db = same-Kept db.transactions
upsert_transactions-Kept (tx ∷ txs) db =
    trans-Kept (upsert_transaction-Kept db tx)
      (upsert_transactions-Kept txs (upsert_transaction db tx))

upsert_block-transactions :
    (block : Block) (db : Database) → (upsert_block block db).transactions ≡ db.transactions
unfolding upsert_block
upsert_block-transactions block db = elim (Bool-cases (has_hash block.hash db.blocks)) [
  | inl e ↦ rw e refl
  | inr e ↦ rw e refl
]

abbrev pub KeptIn : Database → Database → Type 0
KeptIn a b = Kept a.transactions b.transactions

pub Kept-IsPreserved : IsPreserved KeptIn
unfolding add_links
Kept-IsPreserved = record {
  same = λ a b e f g h. rw e (same-Kept a.transactions);
  trans = λ a b c k l. trans-Kept k l;
  removal = λ ids value db. set_last_removed-Kept ids value db.transactions;
  links = λ links db. same-Kept db.transactions;
  values = λ txs db. upsert_transactions-Kept txs db;
}

pub Kept-Upserts : (block : Block) → Upserts KeptIn block
Kept-Upserts block db rests = rw (upsert_block-transactions block db) (same-Kept db.transactions)
