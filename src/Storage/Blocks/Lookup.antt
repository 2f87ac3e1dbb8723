-- ===== src/Storage/Blocks/Lookup.antt =====
-- `BlockByHash` against a search of the table: where hashes are unique, the order of the scan
-- does not show.
use x_b10cslashbademeister.Common.{
  ◌≡◌, refl, sym, ap, ◌∙◌, inl, inr, Option, none, some, Option-cases, Bool-cases, ◌⊎◌,
  if◌then◌else◌, List, [], ◌∷◌, ◌++◌, arith, head?, In, filter, filter-In, In-filter,
}
use x_b10cslashbademeister.Types.{Hash32, hash_eq, hash_eq_iff, StoredBlock}
use x_b10cslashbademeister.Errors.{ok}
use x_b10cslashbademeister.Storage.Database.{Database, BlockRow, format_query}
use x_b10cslashbademeister.Storage.Database.Runs.{IsScan, IsSound, statement_lem}
use x_b10cslashbademeister.Storage.Blocks.{to_stored_block, block_by_hash}

-- The constraint UNIQUE on the column `hash`.
pub record UniqueHashes (rows : List BlockRow) : Type 0 where
  pub unique : (r s : BlockRow) → In r rows → In s rows → r.hash ≡ s.hash → r ≡ s

abbrev with_hash : Hash32 → List BlockRow → List BlockRow
with_hash h rows = filter (λ r. hash_eq r.hash h) rows

unfoldable pub find_row : Hash32 → List BlockRow → Option BlockRow
find_row h rows = head? (filter (λ r. hash_eq r.hash h) rows)

-- The stored block with a hash.
unfoldable pub find_block : Hash32 → List BlockRow → Option StoredBlock
unfolding find_row
find_block h rows = elim (find_row h rows) [ none ↦ none | some r ↦ some (to_stored_block r) ]

head_In : (rows : List BlockRow) {r : BlockRow} → head? rows ≡ some r → In r rows
head_In [] e = cc
head_In (x ∷ rows) e = inl (ground arith)

In-head : (r : BlockRow) (rows : List BlockRow) → In r rows → (s : BlockRow) × (head? rows ≡ some s)
In-head r [] i = elim i [ ]
In-head r (s ∷ rows) i = (s, refl)

find_row-In :
    (h : Hash32) (rows : List BlockRow) {r : BlockRow}
    → find_row h rows ≡ some r
    → In r rows × (r.hash ≡ h)
unfolding find_row
find_row-In h rows {r} e =
    let found = filter-In (λ r. hash_eq r.hash h) r rows (head_In _ e) in
    (found.0, (hash_eq_iff r.hash h).0 found.1)

pub In-find_row :
    (rows : List BlockRow) (r : BlockRow)
    → UniqueHashes rows
    → In r rows
    → find_row r.hash rows ≡ some r
unfolding find_row
In-find_row rows r u i =
    let (s, e) =
      In-head r (with_hash r.hash rows)
        (In-filter _ r rows i ((hash_eq_iff r.hash r.hash).1 refl)) in
    let found = find_row-In r.hash rows e in e ∙ ap some (u.unique s r found.0 i found.1)

UniqueHashes-scan :
    {scan : List BlockRow → List BlockRow} {rows : List BlockRow}
    → IsScan scan
    → UniqueHashes rows
    → UniqueHashes (scan rows)
UniqueHashes-scan {rows = rows} fair u = record {
  unique = λ r s i j. u.unique r s (fair.visited r rows i) (fair.visited s rows j);
}

find_row-scan :
    {scan : List BlockRow → List BlockRow} (h : Hash32) (rows : List BlockRow)
    → IsScan scan
    → UniqueHashes rows
    → find_row h (scan rows) ≡ find_row h rows
find_row-scan {scan} h rows fair u = elim (Option-cases (find_row h rows)) [
  | inr (r, e) ↦
      let found = find_row-In h rows e in
      ap (λ g. find_row g (scan rows)) (sym found.1)
      ∙ In-find_row (scan rows) r (UniqueHashes-scan fair u) (fair.visits r rows found.0)
      ∙ sym e
  | inl e ↦ elim (Option-cases (find_row h (scan rows))) [
    | inl e' ↦ e' ∙ sym e
    | inr (r, e') ↦
        let found = find_row-In h (scan rows) e' in
        let again = In-find_row rows r u (fair.visited r rows found.0) in cc (again, found.1)
  ]
]

-- `BlockByHash` returns the stored block with the hash, or nil, and changes nothing.
pub block_by_hash_lem :
    (h : Hash32) (db : Database)
    → IsSound db.engine
    → UniqueHashes db.blocks
    → block_by_hash h db ≡ (ok (find_block h db.blocks), db)
unfolding block_by_hash find_block format_query
block_by_hash_lem h db sound u =
    rw (statement_lem, sound.no_faults) (ground (arith, find_row-scan h db.blocks sound.blocks u))

-- The row behind a block that was found.
pub find_block-row :
    (h : Hash32) (rows : List BlockRow) {b : StoredBlock}
    → find_block h rows ≡ some b
    → (r : BlockRow) × In r rows × (r.hash ≡ h) × (to_stored_block r ≡ b)
unfolding find_block
find_block-row h rows e = elim (Option-cases (find_row h rows)) [
  | inl e' ↦ absurd (ground arith)
  | inr (r, e') ↦ let found = find_row-In h rows e' in (r, found.0, found.1, ground arith)
]

pub find_block-hash :
    (h : Hash32) (rows : List BlockRow) {b : StoredBlock} → find_block h rows ≡ some b → b.hash ≡ h
unfolding to_stored_block
find_block-hash h rows e =
    let (r, i, p, q) = find_block-row h rows e in ap (λ (c : StoredBlock). c.hash) (sym q) ∙ p

pub In-find_block :
    (rows : List BlockRow) (r : BlockRow)
    → UniqueHashes rows
    → In r rows
    → find_block r.hash rows ≡ some (to_stored_block r)
unfolding find_block
In-find_block rows r u i = ground (arith, In-find_row rows r u i)

pub find_block-nil : (h : Hash32) → find_block h [] ≡ none
unfolding find_block filter
find_block-nil h = refl

pub find_block-cons :
    (h : Hash32) (r : BlockRow) (rows : List BlockRow)
    → find_block h (r ∷ rows)
      ≡ (if hash_eq r.hash h then some (to_stored_block r) else find_block h rows)
unfolding find_block filter
find_block-cons h r rows = ground arith

-- A row at the end is found only where no row before it has its hash.
pub find_block-append :
    (h : Hash32) (rows : List BlockRow) (r : BlockRow) {c : StoredBlock}
    → find_block h (rows ++ r ∷ []) ≡ some c
    → (find_block h rows ≡ some c) ⊎ ((r.hash ≡ h) × (to_stored_block r ≡ c))
find_block-append h [] r e =
    inr (ground (arith, find_block-cons h r [], find_block-nil h, hash_eq_iff r.hash h))
find_block-append h (s ∷ rows) r {c} e = elim (Bool-cases (hash_eq s.hash h)) [
  | inl t ↦ inl (ground (arith, find_block-cons h s rows, find_block-cons h s (rows ++ r ∷ [])))
  | inr t ↦ ground (
    arith,
    find_block-cons h s rows,
    find_block-cons h s (rows ++ r ∷ []),
    λ (q : find_block h (rows ++ r ∷ []) ≡ some c). find_block-append h rows r q,
  )
]
