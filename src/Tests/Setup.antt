-- ===== src/Tests/Setup.antt =====
-- The theorems on the set-up of the storage, at paths with and without a file.
use x_b10cslashbademeister.Common.{
  ◌≡◌, ◌↔◌, ◌⊎◌, refl, true, false, Option, none, some, [], ◌∷◌, arith,
}
use x_b10cslashbademeister.Errors.{ok, panic}
use x_b10cslashbademeister.Storage.Setup.{Schema, Disk, new_storage}
use x_b10cslashbademeister.Storage.Setup.Versions.{
  IsNew, new_storage-fresh, version_in, is_refused, new_storage-existing, fails_at, Unfinished,
  new_storage-Unfinished,
}
use x_b10cslashbademeister.Tests.Scenario.{in_order}
use x_b10cslashbademeister.Tests.Chain.{in_order-IsSound}

abbrev path_of : Option Schema → Disk
path_of file = record {
  file = file;
  stat_fails = false;
  open_fails = false;
  close_fails = false;
  faults = [];
  leaves_file = true;
}

new_storage-fresh_example : IsNew in_order (new_storage (path_of none))
new_storage-fresh_example =
    new_storage-fresh in_order (path_of none) in_order-IsSound
      (record { stat_works = refl; open_works = refl }) refl refl

abbrev version_4 : Schema
version_4 = record {
  config = some (4 ∷ []);
  transactions = some [];
  blocks = some [];
  transaction_blocks = some [];
}

new_storage-existing_example :
    ((new_storage (path_of (some version_4))).1.file ≡ some version_4)
    × (((new_storage (path_of (some version_4))).0 ≡ ok tt) ↔ (
        (false ≡ false)
        × (false ≡ false)
        × (is_refused [] ≡ false)
        × (version_in (some (4 ∷ [])) ≡ some 5)))
    × (false ≡ false
        → false ≡ false
        → (is_refused [] ≡ true) ⊎ (version_in (some (4 ∷ [])) ≡ none)
        → (new_storage (path_of (some version_4))).0 ≡ panic)
new_storage-existing_example = new_storage-existing (path_of (some version_4)) version_4 refl

abbrev failing_path : Disk
failing_path = record (path_of none) { faults = fails_at 3 }

new_storage-Unfinished_example : Unfinished in_order 3 (new_storage failing_path)
new_storage-Unfinished_example =
    new_storage-Unfinished in_order failing_path 3 (record { stat_works = refl; open_works = refl })
      refl refl (omega arith)
