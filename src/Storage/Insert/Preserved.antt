-- ===== src/Storage/Insert/Preserved.antt =====
-- What every method of Storage preserves, because reading changes no table and each statement
-- that writes preserves it: a relation between the database before and after, whatever fails.
pub mod Walks
pub mod Blocks
pub mod Anchors
use x_b10cslashbademeister.Common.{ℕ, ◌≡◌, refl, Bool, true, false, Option, List, [], ◌∷◌, ◌++◌}
use x_b10cslashbademeister.Types.{Block, Transaction}
use x_b10cslashbademeister.Errors.{Result, ok, err, panic, out_of_fuel}
use x_b10cslashbademeister.Storage.Database.{Database, LinkRow, Exec, lift, ◌>>=◌, statement}
use x_b10cslashbademeister.Storage.Transactions.{
  insert_values, insert_transactions, upsert_transactions,
}
use x_b10cslashbademeister.Storage.Database.Runs.{IsScan}
use x_b10cslashbademeister.Storage.Insert.Anchored.{Rests}
use x_b10cslashbademeister.Storage.Insert.{set_last_removed, add_links, upsert_block}

-- A preorder on databases that the statements for transactions and links respect, and that looks
-- at no more of the driver than at how it visits blocks.
pub record IsPreserved (R : Database → Database → Type 0) : Type 0 where
  pub same :
      (a b : Database)
      → b.transactions ≡ a.transactions
      → b.blocks ≡ a.blocks
      → b.transaction_blocks ≡ a.transaction_blocks
      → b.engine.scan_blocks ≡ a.engine.scan_blocks
      → R a b
  pub trans : (a b c : Database) → R a b → R b c → R a c
  pub removal :
      (ids : List ℕ) (value : Option ℕ) (db : Database)
      → R db (record db { transactions = set_last_removed ids value db.transactions })
  pub links : (links : List LinkRow) (db : Database) → R db (add_links links db).1
  pub values : (txs : List Transaction) (db : Database) → R db (upsert_transactions db txs)

-- A run relates every database to the one that it leaves.
abbrev pub Preserves : (Database → Database → Type 0) → {A : Type 0} → Exec A → Type 0
Preserves R m = (db : Database) → R db (m db).1

-- The statement for a block that has passed the check, where the driver visits every row once,
-- respects the relation.
abbrev pub Upserts : (Database → Database → Type 0) → Block → Type 0
Upserts R block =
    (db : Database)
    → (IsScan db.engine.scan_blocks → Rests db.blocks block.parent block.height)
    → R db (upsert_block block db)

module _ (R : Database → Database → Type 0) (kept : IsPreserved R) where
  pub stays : (db : Database) → R db db
  stays db = kept.same db db refl refl refl refl

  -- What follows a run on one database is run on its result.
  pub bind_at :
      {A B : Type 0} (m : Exec A) (f : A → Exec B) (db : Database)
      → R db (m db).1
      → ((a : A) → (m db).0 ≡ ok a → R (m db).1 (f a (m db).1).1)
      → R db ((m >>= f) db).1
  bind_at {A} m f db k l = kept.trans _ _ _ k (resumed (m db).0 (m db).1 l)
    where
      resumed :
          (r : Result A) (s : Database)
          → ((a : A) → r ≡ ok a → R s (f a s).1)
          → R s ((lift r >>= f) s).1
      resumed (ok a) s h = h a refl
      resumed (err e) s h = stays s
      resumed panic s h = stays s
      resumed out_of_fuel s h = stays s

  pub bind-Preserves :
      {A B : Type 0} (m : Exec A) (f : A → Exec B)
      → Preserves R m
      → ((a : A) → Preserves R (f a))
      → Preserves R (m >>= f)
  bind-Preserves m f k l db = bind_at m f db (k db) λ a e. l a (m db).1

  with_faults : List Bool → Database → Database
  with_faults fs db = record db { engine = record db.engine { faults = fs } }

  statement_go :
      {A : Type 0} (act : Exec A) (fs : List Bool) (db : Database)
      → ((fs : List Bool) → R (with_faults fs db) (act (with_faults fs db)).1)
      → R db (statement act (with_faults fs db)).1
  unfolding statement with_faults
  statement_go act [] db k =
      kept.trans _ _ _ (kept.same db (with_faults [] db) refl refl refl refl) (k [])
  statement_go act (true ∷ fs) db k = kept.same db _ refl refl refl refl
  statement_go act (false ∷ fs) db k =
      kept.trans _ _ _ (kept.same db (with_faults fs db) refl refl refl refl) (k fs)

  -- A statement on one database, where fewer faults may be left.
  pub statement_at :
      {A : Type 0} (act : Exec A) (db : Database)
      → ((fs : List Bool)
          → R
              (record db { engine = record db.engine { faults = fs } })
              (act (record db { engine = record db.engine { faults = fs } })).1)
      → R db (statement act db).1
  unfolding with_faults
  statement_at act db k = statement_go act db.engine.faults db k

  pub statement-Preserves :
      {A : Type 0} (act : Exec A) → Preserves R act → Preserves R (statement act)
  statement-Preserves act k db = statement_at act db λ fs. k _

  insert_values-Preserves : (txs : List Transaction) → Preserves R (insert_values txs)
  unfolding insert_values
  insert_values-Preserves [] db = stays db
  insert_values-Preserves (tx ∷ txs) db = kept.values (tx ∷ txs) db

  pub insert_transactions-Preserves :
      (txs : List Transaction) → Preserves R (insert_transactions txs)
  unfolding insert_transactions
  insert_transactions-Preserves txs =
      statement-Preserves (insert_values txs) (insert_values-Preserves txs)
