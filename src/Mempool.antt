-- ===== src/Mempool.antt =====
-- src/storage/mempool.go: the mempool at a point in time, rebuilt from the database and moved on
-- event by event. Buffers has the two buffered readers, Events the events and Seek, Create the
-- constructors; each has its proofs in its children.
pub mod Buffers
pub mod Events
pub mod Create
use x_b10cslashbademeister.Common.{ℕ, Bool, Option, none, some, List, [], ◌==◌, if◌then◌else◌}
use x_b10cslashbademeister.Types.{Time, StoredBlock, StoredTransaction}
use x_b10cslashbademeister.Errors.{Result, ok, err, panic, out_of_fuel, Error}
use x_b10cslashbademeister.Storage.Database.{Database, Exec}

-- A map from database ids to transactions.
abbrev pub TransactionMap : Type 0
TransactionMap = ℕ → Option StoredTransaction

abbrev pub empty_map : TransactionMap
empty_map id = none

abbrev pub put : ℕ → StoredTransaction → TransactionMap → TransactionMap
put id tx m key = if key == id then some tx else m key

abbrev pub delete : ℕ → TransactionMap → TransactionMap
delete id m key = if key == id then none else m key

-- A buffer is a slice of pointers; nil marks the end of the collection. The field `LastEvent`,
-- which nothing sets, is left out, and the database is an argument of the methods.
pub record Mempool : Type 0 where
  pub time : Time
  pub last_block : Option StoredBlock
  pub next_blocks : List (Option StoredBlock)
  pub next_block_buffer_size : ℕ
  pub last_transaction : Option StoredTransaction
  pub next_transactions : List (Option StoredTransaction)
  pub next_transactions_buffer_size : ℕ
  pub transactions : TransactionMap

-- The mempool object and the database that it reads.
pub record Session : Type 0 where
  pub mempool : Mempool
  pub db : Database

-- A method of Mempool. What it wrote to the object stays written, also where it ends in an error.
abbrev pub Play : Type 0 → Type 0
Play A = Session → Result A × Session

abbrev pub pure : {A : Type 0} → A → Play A
pure a s = (ok a, s)

abbrev pub fail : {A : Type 0} → Error → Play A
fail e s = (err e, s)

abbrev pub stop : {A : Type 0} → Result A → Play A
stop r s = (r, s)

abbrev continue : {A B : Type 0} → Result A → (A → Play B) → Play B
continue (ok a) f s = f a s
continue (err e) f s = (err e, s)
continue panic f s = (panic, s)
continue out_of_fuel f s = (out_of_fuel, s)

infixl 5 ◌>>=◌ ◌>>◌
abbrev pub ◌>>=◌ : {A B : Type 0} → Play A → (A → Play B) → Play B
◌>>=◌ m f s = let (r, s') = m s in continue r f s'

abbrev pub ◌>>◌ : {A B : Type 0} → Play A → Play B → Play B
m >> k = m >>= λ _. k

-- A call of a method of Storage.
abbrev pub storage : {A : Type 0} → Exec A → Play A
storage m s = let (r, db') = m s.db in (r, record s { db = db' })

abbrev pub get : Play Mempool
get s = (ok s.mempool, s)

abbrev pub modify : (Mempool → Mempool) → Play (Unit {0})
modify f s = (ok tt, record s { mempool = f s.mempool })
