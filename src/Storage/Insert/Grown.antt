-- ===== src/Storage/Insert/Grown.antt =====
-- What is found in the table of blocks stays so when a row is added behind it.
use x_b10cslashbademeister.Common.{◌≡◌, inl, inr, Bool-cases, some, List, [], ◌∷◌, ◌++◌, arith}
use x_b10cslashbademeister.Types.{Hash32, hash_eq, StoredBlock}
use x_b10cslashbademeister.Storage.Database.{BlockRow}
use x_b10cslashbademeister.Storage.Blocks.Lookup.{find_block, find_block-nil, find_block-cons}
use x_b10cslashbademeister.Storage.Chain.Linked.{Ancestor, self, direct, up, IsStored}

pub find_block-kept :
    (h : Hash32) (rows : List BlockRow) (r : BlockRow) (c : StoredBlock)
    → find_block h rows ≡ some c
    → find_block h (rows ++ r ∷ []) ≡ some c
find_block-kept h [] r c e = absurd (cc (e, find_block-nil h))
find_block-kept h (s ∷ rows) r c e = elim (Bool-cases (hash_eq s.hash h)) [
  | inl t ↦ ground (arith, e, t, find_block-cons h s rows, find_block-cons h s (rows ++ r ∷ []))
  | inr t ↦
      let rest : find_block h rows ≡ some c = ground (arith, e, t, find_block-cons h s rows) in
      ground (arith, t, find_block-kept h rows r c rest, find_block-cons h s (rows ++ r ∷ []))
]

pub Ancestor-kept :
    (h : Hash32) (rows : List BlockRow) (r : BlockRow) (c : StoredBlock)
    → Ancestor rows h c
    → Ancestor (rows ++ r ∷ []) h c
Ancestor-kept h rows r c (self e) = self e
Ancestor-kept h rows r c (direct e) = direct e
Ancestor-kept h rows r c (up {p = p} e a) =
    up (find_block-kept c.parent rows r p e) (Ancestor-kept h rows r p a)

pub IsStored-kept :
    (rows : List BlockRow) (r : BlockRow) (b : StoredBlock)
    → IsStored rows b
    → IsStored (rows ++ r ∷ []) b
IsStored-kept rows r b s = record {
  row = s.row;
  found = find_block-kept b.hash rows r s.row s.found;
  same_height = s.same_height;
  same_parent = s.same_parent;
}
