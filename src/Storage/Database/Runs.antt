-- ===== src/Storage/Database/Runs.antt =====
-- Runs of the driver in which no statement fails, and what its scans may do.
use x_b10cslashbademeister.Common.{◌≡◌, List, [], In, length}
use x_b10cslashbademeister.Storage.Database.{Engine, Database, Exec, statement}

-- Every row once, in some order.
pub record IsScan {A : Type 0} (scan : List A → List A) : Type 0 where
  pub visits : (x : A) (rows : List A) → In x rows → In x (scan rows)
  pub visited : (x : A) (rows : List A) → In x (scan rows) → In x rows
  pub counts : (rows : List A) → length (scan rows) ≡ length rows

pub record IsSound (e : Engine) : Type 0 where
  pub no_faults : e.faults ≡ []
  pub transactions : IsScan e.scan_transactions
  pub blocks : IsScan e.scan_blocks
  pub links : IsScan e.scan_links

pub statement_lem :
    {A : Type 0} (act : Exec A) (db : Database) → db.engine.faults ≡ [] → statement act db ≡ act db
unfolding statement
statement_lem act db h = rw h
