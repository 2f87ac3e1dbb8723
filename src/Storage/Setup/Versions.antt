-- ===== src/Storage/Setup/Versions.antt =====
-- What `NewStorage` makes of a path: a new file, an existing one, and one that an earlier call has
-- left unfinished.
use x_b10cslashbademeister.Common.{
  ℕ, zero, suc, ◌<◌, ◌≤◌, ◌≡◌, refl, ◌≢◌, ◌↔◌, ◌⊎◌, ◌++◌, Bool, true, false, Option, none, some,
  List, [], ◌∷◌, replicate, filter, arith,
}
use x_b10cslashbademeister.Errors.{
  Result, ok, err, panic, engine_failure, Site, creating_config, filling_config,
  creating_transaction, creating_block, creating_transaction_block, initializing_database, wrap,
}
use x_b10cslashbademeister.Storage.Database.{Engine, Database}
use x_b10cslashbademeister.Storage.Database.Runs.{IsSound}
use x_b10cslashbademeister.Storage.Chain.Linked.{IsLinked, HasChains}
use x_b10cslashbademeister.Storage.Blocks.Lookup.{UniqueHashes, find_row, find_block}
use x_b10cslashbademeister.Storage.Setup.{
  Schema, Disk, exec, initialize, get_version, migrate, new_storage, database_of,
}

-- Neither os.Stat nor sql.Open fails.
pub record IsReachable (d : Disk) : Type 0 where
  pub stat_works : d.stat_fails ≡ false
  pub open_works : d.open_fails ≡ false

-- A database with no rows that keeps what the methods of Storage rely on, in a file that opens
-- again as it is.
pub record IsNew (e : Engine) (r : Result (Unit {0}) × Disk) : Type 0 where
  pub works : r.0 ≡ ok tt
  pub db : Database
  pub readable : database_of e r.1.file ≡ some db
  pub no_transactions : db.transactions ≡ []
  pub no_blocks : db.blocks ≡ []
  pub no_links : db.transaction_blocks ≡ []
  pub chains : HasChains db
  pub reopens : new_storage r.1 ≡ (ok tt, r.1)

no_rows-UniqueHashes : UniqueHashes []
no_rows-UniqueHashes = record { unique = λ r s i j e. elim i [ ] }

no_rows-IsLinked : IsLinked []
unfolding find_block find_row filter
no_rows-IsLinked = record { heights = λ h c p e. absurd (cc); bounded = λ h c e. absurd (cc) }

-- On a path without a file, and where no statement fails, NewStorage gives a database without
-- rows on which the invariant of the chains of blocks holds, and opening the file that it leaves
-- succeeds and changes nothing.
pub new_storage-fresh :
    (e : Engine) (d : Disk)
    → IsSound e
    → IsReachable d
    → d.file ≡ none
    → d.faults ≡ []
    → IsNew e (new_storage d)
unfolding new_storage initialize get_version migrate exec database_of
new_storage-fresh e d sound reach no_file no_faults =
    rw (reach.stat_works, reach.open_works, no_file, no_faults)
      (record {
        works = refl;
        db = record {
          transactions = [];
          blocks = [];
          transaction_blocks = [];
          last_rowid = 0;
          engine = e;
        };
        readable = refl;
        no_transactions = refl;
        no_blocks = refl;
        no_links = refl;
        chains = record { sound = sound; unique = no_rows-UniqueHashes; linked = no_rows-IsLinked };
        reopens = refl;
      })

-- The first version that the file holds.
abbrev pub version_in : Option (List ℕ) → Option ℕ
version_in none = none
version_in (some []) = none
version_in (some (version ∷ versions)) = some version

-- The next statement fails.
abbrev pub is_refused : List Bool → Bool
is_refused [] = false
is_refused (refused ∷ rest) = refused

-- A file that is there is never changed. It is accepted exactly where it can be reached, the one
-- statement works, and its first version is 5; where it can be reached and the statement fails, or
-- no version can be read, NewStorage panics.
pub new_storage-existing :
    (d : Disk) (s : Schema)
    → d.file ≡ some s
    → ((new_storage d).1.file ≡ some s)
      × (((new_storage d).0 ≡ ok tt) ↔ (
          (d.stat_fails ≡ false)
          × (d.open_fails ≡ false)
          × (is_refused d.faults ≡ false)
          × (version_in s.config ≡ some 5)))
      × (d.stat_fails ≡ false
          → d.open_fails ≡ false
          → (is_refused d.faults ≡ true) ⊎ (version_in s.config ≡ none)
          → (new_storage d).0 ≡ panic)
unfolding new_storage get_version migrate exec
new_storage-existing d s here = ground (arith, here)

-- The faults of a driver that fails statement number k.
abbrev pub fails_at : ℕ → List Bool
fails_at k = replicate k false ++ true ∷ []

-- What the error for statement number k names.
abbrev pub failed_at : ℕ → Site
failed_at zero = creating_config
failed_at (suc zero) = filling_config
failed_at (suc (suc zero)) = creating_transaction
failed_at (suc (suc (suc zero))) = creating_block
failed_at (suc (suc (suc (suc k)))) = creating_transaction_block

abbrev pub Unfinished : Engine → ℕ → Result (Unit {0}) × Disk → Type 0
Unfinished e k r =
    (r.0 ≡ err (wrap initializing_database (wrap (failed_at k) engine_failure)))
    × (database_of e r.1.file ≡ none)
    × (r.1.file ≢ none → k < 2 → (new_storage r.1).0 ≡ panic)
    × (2 ≤ k → new_storage r.1 ≡ (ok tt, r.1))

-- Where one of the five statements on a new file fails, NewStorage returns an error that names the
-- statement, and a table that the methods need is not there. The next call, where nothing fails, does not repair the
-- file: it panics if the first or the second statement had failed and a file is there, and
-- succeeds, with the tables still missing, if a later one had.
pub new_storage-Unfinished :
    (e : Engine) (d : Disk) (k : ℕ)
    → IsReachable d
    → d.file ≡ none
    → d.faults ≡ fails_at k
    → k < 5
    → Unfinished e k (new_storage d)
unfolding new_storage initialize get_version migrate exec database_of
new_storage-Unfinished e d zero reach no_file faults small =
    ground (arith, reach.stat_works, reach.open_works, no_file, faults)
new_storage-Unfinished e d (suc zero) reach no_file faults small =
    ground (arith, reach.stat_works, reach.open_works, no_file, faults)
new_storage-Unfinished e d (suc (suc zero)) reach no_file faults small =
    ground (arith, reach.stat_works, reach.open_works, no_file, faults)
new_storage-Unfinished e d (suc (suc (suc zero))) reach no_file faults small =
    ground (arith, reach.stat_works, reach.open_works, no_file, faults)
new_storage-Unfinished e d (suc (suc (suc (suc zero)))) reach no_file faults small =
    ground (arith, reach.stat_works, reach.open_works, no_file, faults)
new_storage-Unfinished e d (suc (suc (suc (suc (suc k))))) reach no_file faults small =
    absurd (omega arith)
