-- ===== src/Storage/Insert/Rows.antt =====
-- The table of blocks after a row is added or a time is lowered.
use x_b10cslashbademeister.Common.{
  ℕ, suc, ◌^◌, ◌<◌, ◌≡◌, ◌≢◌, refl, sym, ap, ◌∙◌, inl, inr, true, false, ◌&&◌, some, Bool-cases,
  List, [], ◌∷◌, ◌++◌, arith, if◌then◌else◌, ltb, In, In-append_cases,
}
use x_b10cslashbademeister.Types.{Hash32, hash_eq, hash_eq_iff, StoredBlock}
use x_b10cslashbademeister.Storage.Database.{BlockRow}
use x_b10cslashbademeister.Storage.Blocks.{to_stored_block}
use x_b10cslashbademeister.Storage.Blocks.Lookup.{
  UniqueHashes, find_block, find_block-append, find_block-cons,
}
use x_b10cslashbademeister.Storage.Chain.Linked.{IsLinked}
use x_b10cslashbademeister.Storage.Insert.{has_hash, lower_block_first_seen}

pub has_hash-In :
    (h : Hash32) (rows : List BlockRow) (r : BlockRow)
    → In r rows
    → r.hash ≡ h
    → has_hash h rows ≡ true
unfolding has_hash
has_hash-In h (s ∷ rows) r (inl e) q =
    ground (arith, (hash_eq_iff s.hash h).1 (ap (λ (t : BlockRow). t.hash) (sym e) ∙ q))
has_hash-In h (s ∷ rows) r (inr i) q = ground (arith, has_hash-In h rows r i q)
has_hash-In h [] r i q = elim i [ ]

pub append-UniqueHashes :
    (rows : List BlockRow) (r : BlockRow)
    → has_hash r.hash rows ≡ false
    → UniqueHashes rows
    → UniqueHashes (rows ++ r ∷ [])
append-UniqueHashes rows r absent u = record {
  unique = λ s t i j e. ground (
    arith,
    In-append_cases s rows (r ∷ []) i,
    In-append_cases t rows (r ∷ []) j,
    u.unique s t,
    has_hash-In r.hash rows s,
    has_hash-In r.hash rows t,
  );
}

-- A new row above its stored parent, and awaited by no stored block.
pub append-IsLinked :
    (rows : List BlockRow) (r : BlockRow)
    → IsLinked rows
    → r.height < 2 ^ 32
    → r.parent ≢ r.hash
    → ((p : StoredBlock) → find_block r.parent rows ≡ some p → r.height ≡ suc p.height)
    → ((h : Hash32) (c : StoredBlock) → find_block h rows ≡ some c → c.parent ≢ r.hash)
    → IsLinked (rows ++ r ∷ [])
unfolding to_stored_block
append-IsLinked rows r linked small own above awaited = record {
  heights = λ h c p e q. elim (find_block-append h rows r e) [
    | inl c_old ↦ elim (find_block-append c.parent rows r q) [
      | inl p_old ↦ linked.heights h c p c_old p_old
      | inr p_new ↦ absurd (awaited h c c_old (sym p_new.0))
    ]
    | inr c_new ↦
        let q' : find_block r.parent (rows ++ r ∷ []) ≡ some p =
          ap (λ (b : StoredBlock). find_block b.parent (rows ++ r ∷ [])) c_new.1 ∙ q in
        elim (find_block-append r.parent rows r q') [
          | inl p_old ↦ ap (λ (b : StoredBlock). b.height) (sym c_new.1) ∙ above p p_old
          | inr p_new ↦ absurd (own (sym p_new.0))
        ]
  ];
  bounded = λ h c e. elim (find_block-append h rows r e) [
    | inl old ↦ linked.bounded h c old
    | inr new ↦ rw (← new.1) small
  ];
}

abbrev pub lowered : Hash32 → ℕ → BlockRow → BlockRow
lowered g sec r =
    if hash_eq r.hash g && ltb sec r.first_seen then record r { first_seen = sec } else r

pub lower-In :
    (g : Hash32) (sec : ℕ) (rows : List BlockRow) (s : BlockRow)
    → In s (lower_block_first_seen g sec rows)
    → (r : BlockRow) × In r rows × (s ≡ lowered g sec r)
unfolding lower_block_first_seen
lower-In g sec [] s i = elim i [ ]
lower-In g sec (r ∷ rows) s (inl e) = (r, inl refl, e)
lower-In g sec (r ∷ rows) s (inr i) = let (t, j, e) = lower-In g sec rows s i in (t, inr j, e)

lowered-hash : (g : Hash32) (sec : ℕ) (r : BlockRow) → (lowered g sec r).hash ≡ r.hash
lowered-hash g sec r = ground arith

pub lower-UniqueHashes :
    (g : Hash32) (sec : ℕ) (rows : List BlockRow)
    → UniqueHashes rows
    → UniqueHashes (lower_block_first_seen g sec rows)
lower-UniqueHashes g sec rows u = record {
  unique = λ s t i j e.
      let (a, ia, ea) = lower-In g sec rows s i in
      let (b, ib, eb) = lower-In g sec rows t j in
      let same : a ≡ b = u.unique a b ia ib (
        sym (lowered-hash g sec a)
        ∙ ap (λ (r : BlockRow). r.hash) (sym ea)
        ∙ e
        ∙ ap (λ (r : BlockRow). r.hash) eb
        ∙ lowered-hash g sec b) in
      ea ∙ ap (lowered g sec) same ∙ sym eb;
}

-- Hash, parent and height of a stored block, whatever its times.
lower-find_block :
    (h g : Hash32) (sec : ℕ) (rows : List BlockRow) (c : StoredBlock)
    → find_block h (lower_block_first_seen g sec rows) ≡ some c
    → (b : StoredBlock) × (find_block h rows ≡ some b)
      × (b.height ≡ c.height)
      × (b.parent ≡ c.parent)
unfolding lower_block_first_seen to_stored_block
lower-find_block h g sec [] c e = (c, e, refl, refl)
lower-find_block h g sec (r ∷ rows) c e =
    let e' = find_block-cons h (lowered g sec r) (lower_block_first_seen g sec rows) in
    elim (Bool-cases (hash_eq r.hash h)) [
      | inl t ↦ (
        to_stored_block r,
        ground (arith, find_block-cons h r rows),
        ground (arith, e'),
        ground (arith, e'),
      )
      | inr t ↦
          let (b, found, height, parent) = lower-find_block h g sec rows c (ground (arith, e')) in
          (b, ground (arith, find_block-cons h r rows), height, parent)
    ]

pub lower-IsLinked :
    (g : Hash32) (sec : ℕ) (rows : List BlockRow)
    → IsLinked rows
    → IsLinked (lower_block_first_seen g sec rows)
lower-IsLinked g sec rows linked = record {
  heights = λ h c p e q.
      let (b, found, height, parent) = lower-find_block h g sec rows c e in
      let (b', found', height', _) = lower-find_block c.parent g sec rows p q in
      sym height
      ∙ linked.heights h b b' found (ap (λ g. find_block g rows) parent ∙ found')
      ∙ ap suc height';
  bounded = λ h c e.
      let (b, found, height, parent) = lower-find_block h g sec rows c e in
      rw (← height) (linked.bounded h b found);
}
