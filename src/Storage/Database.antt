-- ===== src/Storage/Database.antt =====
-- The tables that `initialize` of src/storage/storage.go creates, the SQLite driver as far as SQL
-- leaves it open, and the form of the code's queries. SQL text is read as what it states: a
-- SELECT is a filter, a sort and a limit over the rows of a table.
pub mod Runs
use x_b10cslashbademeister.Common.{
  ℕ, suc, Bool, true, false, Option, none, some, List, [], ◌∷◌, if◌then◌else◌, ltb, take, filter,
  sort_by,
}
use x_b10cslashbademeister.Types.{Hash32}
use x_b10cslashbademeister.Errors.{
  Result, ok, err, panic, out_of_fuel, Error, engine_failure, Site, wrap_error,
}

pub record TransactionRow : Type 0 where
  pub id : ℕ
  pub txid : Hash32
  pub first_seen : ℕ
  pub last_removed : Option ℕ
  pub fee : ℕ
  pub weight : ℕ

pub record BlockRow : Type 0 where
  pub id : ℕ
  pub hash : Hash32
  pub parent : Hash32
  pub first_seen : ℕ
  pub height : ℕ
  pub is_best : Bool

-- A row of `transaction_block`, with SQLite's implicit rowid.
pub record LinkRow : Type 0 where
  pub rowid : ℕ
  pub transaction_id : ℕ
  pub block_id : ℕ
  pub block_index : ℕ

-- What the driver decides: which of the statements to come fail (none, where the list has ended),
-- and in which order a statement visits the rows of a table.
pub record Engine : Type 0 where
  pub faults : List Bool
  pub scan_transactions : List TransactionRow → List TransactionRow
  pub scan_blocks : List BlockRow → List BlockRow
  pub scan_links : List LinkRow → List LinkRow

-- `last_rowid` is sqlite3_last_insert_rowid of the one connection.
pub record Database : Type 0 where
  pub transactions : List TransactionRow
  pub blocks : List BlockRow
  pub transaction_blocks : List LinkRow
  pub last_rowid : ℕ
  pub engine : Engine

-- Code that changes a state: what it wrote stays written, also where it ends in an error.
abbrev pub Run : Type 0 → Type 0 → Type 0
Run S A = S → Result A × S

-- A method of Storage.
abbrev pub Exec : Type 0 → Type 0
Exec A = Run Database A

abbrev pub pure : {S A : Type 0} → A → Run S A
pure a s = (ok a, s)

abbrev pub fail : {S A : Type 0} → Error → Run S A
fail e s = (err e, s)

abbrev pub lift : {S A : Type 0} → Result A → Run S A
lift r s = (r, s)

abbrev continue : {S A B : Type 0} → Result A → (A → Run S B) → Run S B
continue (ok a) f s = f a s
continue (err e) f s = (err e, s)
continue panic f s = (panic, s)
continue out_of_fuel f s = (out_of_fuel, s)

infixl 5 ◌>>=◌ ◌>>◌
abbrev pub ◌>>=◌ : {S A B : Type 0} → Run S A → (A → Run S B) → Run S B
◌>>=◌ m f s = let (r, s') = m s in continue r f s'

abbrev pub ◌>>◌ : {S A B : Type 0} → Run S A → Run S B → Run S B
m >> k = m >>= λ _. k

-- The error, if there is one, wrapped in a text.
abbrev pub wrap_exec : {S A : Type 0} → Site → Run S A → Run S A
wrap_exec site m s = let (r, s') = m s in (wrap_error site r, s')

abbrev after_fault : {A : Type 0} → List Bool → Exec A → Exec A
after_fault [] act db = act db
after_fault (true ∷ rest) act db =
    (err engine_failure, record db { engine = record db.engine { faults = rest } })
after_fault (false ∷ rest) act db = act (record db { engine = record db.engine { faults = rest } })

-- One statement. A statement that fails changes no table.
unfoldable pub statement : {A : Type 0} → Exec A → Exec A
statement act db = after_fault db.engine.faults act db

-- The interface `Query` and `StaticQuery`: an empty ORDER BY is none, and a limit of 0 is none.
pub record Query (A : Type 0) : Type 0 where
  pub condition : A → Bool
  pub order : Option (A → A → Bool)
  pub limit : ℕ

ordered : {A : Type 0} → Option (A → A → Bool) → List A → List A
ordered none rows = rows
ordered (some before) rows = sort_by before rows

limited : {A : Type 0} → ℕ → List A → List A
limited limit rows = if ltb 0 limit then take limit rows else rows

-- The rows that the SELECT of `formatQuery` yields.
unfoldable pub format_query : {A : Type 0} → Query A → List A → List A
unfolding ordered limited
format_query q rows = limited q.limit (ordered q.order (filter q.condition rows))

-- The rowid that SQLite gives the next row: one more than the largest.
unfoldable pub next_rowid : List ℕ → ℕ
next_rowid [] = 1
next_rowid (id ∷ ids) = let n = next_rowid ids in if ltb id n then n else suc id
