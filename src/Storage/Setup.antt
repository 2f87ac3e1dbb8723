-- ===== src/Storage/Setup.antt =====
-- `NewStorage`, `initialize`, `getVersion`, `migrate` and `Close` of src/storage/storage.go: the file
-- of the database before it has its tables. A version is a natural number.
pub mod Versions
use x_b10cslashbademeister.Common.{
  ℕ, Bool, true, false, Option, none, some, List, [], ◌∷◌, ◌==◌, if◌then◌else◌,
}
use x_b10cslashbademeister.Errors.{
  Result, ok, err, panic, out_of_fuel, Error, engine_failure, stat_failure, open_failure,
  close_failure, cannot_migrate, Site, creating_config, filling_config, creating_transaction,
  creating_block, creating_transaction_block, initializing_database, migrating_database, wrap,
}
use x_b10cslashbademeister.Storage.Database.{
  TransactionRow, BlockRow, LinkRow, Engine, Database, Run, pure, fail, lift, ◌>>=◌, ◌>>◌,
  wrap_exec,
}

abbrev pub current_version : ℕ
current_version = 5

-- A file of SQLite. A table is none as long as it has not been created; `config` is the column
-- `version` of its rows.
pub record Schema : Type 0 where
  pub config : Option (List ℕ)
  pub transactions : Option (List TransactionRow)
  pub blocks : Option (List BlockRow)
  pub transaction_blocks : Option (List LinkRow)

-- The path given to `NewStorage`. `file` is none where there is no file. The rest is what the
-- system decides: whether os.Stat, sql.Open and the closing of the connection fail, which of the
-- statements to come fail (none, where the list has ended), and whether a statement that fails
-- leaves a file where there was none.
pub record Disk : Type 0 where
  pub file : Option Schema
  pub stat_fails : Bool
  pub open_fails : Bool
  pub close_fails : Bool
  pub faults : List Bool
  pub leaves_file : Bool

abbrev pub empty_schema : Schema
empty_schema = record {
  config = none;
  transactions = none;
  blocks = none;
  transaction_blocks = none;
}

-- SQLite opens a file that is not there as an empty one.
abbrev schema_of : Option Schema → Schema
schema_of none = empty_schema
schema_of (some schema) = schema

abbrev after_failure : Option Schema → Bool → Option Schema
after_failure none true = some empty_schema
after_failure none false = none
after_failure (some schema) leaves = some schema

-- What a statement makes of the tables, none where SQLite refuses it.
abbrev outcome : {A : Type 0} → Option (A × Schema) → List Bool → Disk → Result A × Disk
outcome none rest d =
    (err engine_failure, record d { file = after_failure d.file d.leaves_file; faults = rest })
outcome (some (a, schema)) rest d = (ok a, record d { file = some schema; faults = rest })

abbrev attempt : {A : Type 0} → List Bool → (Schema → Option (A × Schema)) → Run Disk A
attempt [] act d = outcome (act (schema_of d.file)) [] d
attempt (true ∷ rest) act d = outcome none rest d
attempt (false ∷ rest) act d = outcome (act (schema_of d.file)) rest d

-- `s.db.Exec` or `s.db.QueryRow` with its Scan
unfoldable pub exec : {A : Type 0} → (Schema → Option (A × Schema)) → Run Disk A
exec act d = attempt d.faults act d

-- CREATE TABLE refuses a name that is taken, and INSERT a table that is not there.
abbrev created : {A : Type 0} → Option (List A) → Schema → Option (Unit {0} × Schema)
created none schema = some (tt, schema)
created (some rows) schema = none

abbrev pub create_config : Schema → Option (Unit {0} × Schema)
create_config s = created s.config (record s { config = some [] })

abbrev version_inserted : ℕ → Option (List ℕ) → Schema → Option (Unit {0} × Schema)
version_inserted version none s = none
version_inserted version (some rows) s = some (tt, record s { config = some (version ∷ rows) })

abbrev pub fill_config : ℕ → Schema → Option (Unit {0} × Schema)
fill_config version s = version_inserted version s.config s

abbrev pub create_transaction : Schema → Option (Unit {0} × Schema)
create_transaction s = created s.transactions (record s { transactions = some [] })

abbrev pub create_block : Schema → Option (Unit {0} × Schema)
create_block s = created s.blocks (record s { blocks = some [] })

abbrev pub create_transaction_block : Schema → Option (Unit {0} × Schema)
create_transaction_block s =
    created s.transaction_blocks (record s { transaction_blocks = some [] })

unfoldable pub initialize : ℕ → Run Disk (Unit {0})
unfolding exec
initialize version = do
  wrap_exec creating_config (exec create_config)
  wrap_exec filling_config (exec (fill_config version))
  wrap_exec creating_transaction (exec create_transaction)
  wrap_exec creating_block (exec create_block)
  wrap_exec creating_transaction_block (exec create_transaction_block)

-- The first row of `config`; no such table and no such row are errors of Scan.
abbrev first_version : Option (List ℕ) → Schema → Option (ℕ × Schema)
first_version none s = none
first_version (some []) s = none
first_version (some (version ∷ versions)) s = some (version, s)

abbrev pub select_version : Schema → Option (ℕ × Schema)
select_version s = first_version s.config s

abbrev panic_on_error : {A : Type 0} → Result A × Disk → Result A × Disk
panic_on_error (ok a, d) = (ok a, d)
panic_on_error (err e, d) = (panic, d)
panic_on_error (panic, d) = (panic, d)
panic_on_error (out_of_fuel, d) = (out_of_fuel, d)

unfoldable pub get_version : Run Disk ℕ
unfolding exec
get_version d = panic_on_error (exec select_version d)

unfoldable pub migrate : ℕ → Run Disk (Unit {0})
migrate from_version =
    if from_version == current_version then pure tt else fail (cannot_migrate from_version)

-- The part of `NewStorage` behind sql.Open, for a path without and with a file.
abbrev set_up : Option Schema → Run Disk (Unit {0})
unfolding initialize get_version migrate
set_up none = wrap_exec initializing_database (initialize current_version)
set_up (some schema) = do version ← get_version; wrap_exec migrating_database (migrate version)

unfoldable pub new_storage : Run Disk (Unit {0})
unfolding initialize get_version migrate
new_storage d =
    if d.stat_fails
    then (err stat_failure, d)
    else if d.open_fails
    then (err open_failure, d)
    else set_up d.file d

-- `Close` of Storage
unfoldable pub close_storage : Run Disk (Unit {0})
close_storage d = if d.close_fails then (err close_failure, d) else (ok tt, d)

-- The database that the methods of Storage work on, where its tables are there.
abbrev tables :
    Engine
    → Option (List TransactionRow)
    → Option (List BlockRow)
    → Option (List LinkRow)
    → Option Database
tables engine (some txs) (some blocks) (some links) = some (record {
  transactions = txs;
  blocks = blocks;
  transaction_blocks = links;
  last_rowid = 0;
  engine = engine;
})
tables engine none blocks links = none
tables engine (some txs) none links = none
tables engine (some txs) (some blocks) none = none

unfoldable pub database_of : Engine → Option Schema → Option Database
database_of engine none = none
database_of engine (some s) = tables engine s.transactions s.blocks s.transaction_blocks
