-- ===== src/Tests/Checks.antt =====
-- Boolean checks by which a concrete table of blocks is shown to be a set of chains.
use x_b10cslashbademeister.Common.{
  suc, ◌^◌, ◌≡◌, ◌≢◌, sym, ap, ◌∙◌, inl, inr, Bool, true, not, ◌&&◌, ◌||◌, some, List, [], ◌∷◌,
  arith, ltb, ◌==◌, In,
}
use x_b10cslashbademeister.Types.{Hash32, hash_eq, hash_eq_iff, StoredBlock}
use x_b10cslashbademeister.Storage.Database.{BlockRow}
use x_b10cslashbademeister.Storage.Blocks.{to_stored_block}
use x_b10cslashbademeister.Storage.Blocks.Lookup.{UniqueHashes, find_block, find_block-row}
use x_b10cslashbademeister.Storage.Chain.Linked.{IsLinked}

all : {A : Type 0} → (A → Bool) → List A → Bool
all p [] = true
all p (x ∷ xs) = p x && all p xs

all-In : {A : Type 0} (p : A → Bool) (xs : List A) (x : A) → all p xs ≡ true → In x xs → p x ≡ true
unfolding all
all-In p [] x h i = elim i [ ]
all-In p (y ∷ xs) x h (inl e) = rw e (ground arith)
all-In p (y ∷ xs) x h (inr i) = ground (arith, all-In p xs x)

-- No two rows have one hash.
distinct : List BlockRow → Bool
distinct [] = true
distinct (r ∷ rows) = all (λ s. not (hash_eq r.hash s.hash)) rows && distinct rows

-- A row that is no parent of the other, or is one lower.
fits : BlockRow → BlockRow → Bool
fits r s = not (hash_eq s.hash r.parent) || r.height == suc s.height

unfoldable pub is_chain : List BlockRow → Bool
unfolding all distinct fits
is_chain rows = distinct rows && all (λ r. ltb r.height (2 ^ 32) && all (fits r) rows) rows

cons-UniqueHashes :
    (t : BlockRow) (rows : List BlockRow)
    → all (λ s. not (hash_eq t.hash s.hash)) rows ≡ true
    → UniqueHashes rows
    → UniqueHashes (t ∷ rows)
cons-UniqueHashes t rows other u = record { unique = pair }
  where
    differs : (r : BlockRow) → In r rows → t.hash ≢ r.hash
    differs r i e = ground (
      arith,
      all-In (λ s. not (hash_eq t.hash s.hash)) rows r other i,
      (hash_eq_iff t.hash r.hash).1 e,
    )

    pair : (r s : BlockRow) → In r (t ∷ rows) → In s (t ∷ rows) → r.hash ≡ s.hash → r ≡ s
    pair r s (inl a) (inl b) e = a ∙ sym b
    pair r s (inl a) (inr j) e = absurd (differs s j (ap (λ (q : BlockRow). q.hash) (sym a) ∙ e))
    pair r s (inr i) (inl b) e =
        absurd (differs r i (ap (λ (q : BlockRow). q.hash) (sym b) ∙ sym e))
    pair r s (inr i) (inr j) e = u.unique r s i j e

distinct-UniqueHashes : (rows : List BlockRow) → distinct rows ≡ true → UniqueHashes rows
unfolding distinct
distinct-UniqueHashes [] h = record { unique = λ r s i j e. elim i [ ] }
distinct-UniqueHashes (t ∷ rows) h =
    cons-UniqueHashes t rows (ground arith) (distinct-UniqueHashes rows (ground arith))

pub is_chain-UniqueHashes : (rows : List BlockRow) → is_chain rows ≡ true → UniqueHashes rows
unfolding is_chain
is_chain-UniqueHashes rows h = distinct-UniqueHashes rows (ground arith)

pub is_chain-IsLinked : (rows : List BlockRow) → is_chain rows ≡ true → IsLinked rows
unfolding is_chain to_stored_block
is_chain-IsLinked rows h = record {
  heights = λ g c p e q.
      let (r, i, _, er) = find_block-row g rows e in
      let (s, j, hs, es) = find_block-row c.parent rows q in
      ground (
        arith,
        er,
        es,
        hs,
        all-In (λ r. ltb r.height (2 ^ 32) && all (fits r) rows) rows r (ground arith) i,
        all-In (fits r) rows s
            (ground (
              arith,
              all-In (λ r. ltb r.height (2 ^ 32) && all (fits r) rows) rows r (ground arith) i,
            ))
            j,
        (hash_eq_iff s.hash r.parent).1,
      );
  bounded = λ g c e.
      let (r, i, _, er) = find_block-row g rows e in
      ground (
        arith,
        er,
        all-In (λ r. ltb r.height (2 ^ 32) && all (fits r) rows) rows r (ground arith) i,
      );
}

unfoldable pub no_child_of : Hash32 → List BlockRow → Bool
unfolding all
no_child_of h rows = all (λ r. not (hash_eq r.parent h)) rows

pub no_child_of-awaited :
    (h : Hash32) (rows : List BlockRow)
    → no_child_of h rows ≡ true
    → (g : Hash32) (c : StoredBlock) → find_block g rows ≡ some c
    → c.parent ≢ h
unfolding no_child_of to_stored_block
no_child_of-awaited h rows t g c e parent =
    let (r, i, _, er) = find_block-row g rows e in
    ground
      (arith, er, all-In (λ r. not (hash_eq r.parent h)) rows r t i, (hash_eq_iff r.parent h).1)
