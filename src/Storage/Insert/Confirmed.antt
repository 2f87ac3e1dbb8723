-- ===== src/Storage/Insert/Confirmed.antt =====
-- The links that insertTransactionBlock writes, against the transactions of the block.
use x_b10cslashbademeister.Common.{
  ℕ, zero, suc, ◌+◌, ◌<◌, ◌≡◌, refl, sym, ap, ◌∙◌, ◌⊎◌, inl, inr, Bool-cases, some, Option-cases,
  List, [], ◌∷◌, map, ltb, In, get_elem?, arith,
}
use x_b10cslashbademeister.Types.{Hash32}
use x_b10cslashbademeister.Storage.Database.{TransactionRow, LinkRow}
use x_b10cslashbademeister.Storage.Transactions.Upsert.{find_transaction}
use x_b10cslashbademeister.Storage.Transactions.Ids.{stored_id}
use x_b10cslashbademeister.Storage.Insert.{link_rows}

-- A link of a block says that the hash at its index is that of a stored transaction with its id.
pub record Confirms (txs : List TransactionRow) (block_id : ℕ) (hashes : List Hash32)
    (links : List LinkRow) : Type 0 where
  pub only :
      (l : LinkRow)
      → In l links
      → (h : Hash32) × (r : TransactionRow) × (l.block_id ≡ block_id)
        × (get_elem? hashes l.block_index ≡ some h)
        × (find_transaction h txs ≡ some r)
        × (r.id ≡ l.transaction_id)
  pub each :
      (i : ℕ) (h : Hash32) (r : TransactionRow)
      → get_elem? hashes i ≡ some h
      → find_transaction h txs ≡ some r
      → 0 < r.id
      → (l : LinkRow) × In l links
        × (l.block_id ≡ block_id)
        × (l.block_index ≡ i)
        × (l.transaction_id ≡ r.id)
  pub once : (l m : LinkRow) → In l links → In m links → l.block_index ≡ m.block_index → l ≡ m

module _ (txs : List TransactionRow) (block_id : ℕ) where
  abbrev links : ℕ → ℕ → List Hash32 → List LinkRow
  links rowid index hashes =
      link_rows rowid block_id index (map (λ h. stored_id (find_transaction h txs)) hashes)

  -- A link that stands for the hash at `i`, where the hashes begin at `index`.
  record StandsFor (index : ℕ) (hashes : List Hash32) (l : LinkRow) : Type 0 where
    i : ℕ
    h : Hash32
    r : TransactionRow
    at : l.block_index ≡ index + i
    of_block : l.block_id ≡ block_id
    hash_there : get_elem? hashes i ≡ some h
    found : find_transaction h txs ≡ some r
    same_id : r.id ≡ l.transaction_id

  later :
      {index : ℕ} {h : Hash32} {hashes : List Hash32} {l : LinkRow}
      → StandsFor (suc index) hashes l
      → StandsFor index (h ∷ hashes) l
  later s = record {
    i = suc s.i;
    h = s.h;
    r = s.r;
    at = omega (arith, s.at);
    of_block = s.of_block;
    hash_there = s.hash_there;
    found = s.found;
    same_id = s.same_id;
  }

  -- What the first hash adds.
  links-cases :
      (rowid index : ℕ) (h : Hash32) (hashes : List Hash32)
      → (links rowid index (h ∷ hashes) ≡ links rowid (suc index) hashes
          × ((r : TransactionRow) → find_transaction h txs ≡ some r → r.id ≡ 0))
        ⊎ ((r : TransactionRow) × (find_transaction h txs ≡ some r)
            × (links rowid index (h ∷ hashes)
                ≡ record {
                  rowid = rowid;
                  transaction_id = r.id;
                  block_id = block_id;
                  block_index = index;
                }
                  ∷ links (suc rowid) (suc index) hashes))
  unfolding link_rows
  links-cases rowid index h hashes = elim (Option-cases (find_transaction h txs)) [
    | inl e ↦ inl (rw e refl, λ r f. absurd (cc))
    | inr (r, e) ↦ elim (Bool-cases (ltb 0 r.id)) [
      | inl t ↦ inr (r, e, rw e (rw (t, link_rows) refl))
      | inr t ↦ inl (rw e (rw (t, link_rows) refl), λ q f. ground (arith, e, f, t))
    ]
  ]

  links-StandsFor :
      (hashes : List Hash32) (rowid index : ℕ) (l : LinkRow)
      → In l (links rowid index hashes)
      → StandsFor index hashes l
  unfolding link_rows
  links-StandsFor [] rowid index l i = absurd i
  links-StandsFor (h ∷ hashes) rowid index l i = elim (links-cases rowid index h hashes) [
    | inl (e, _) ↦ later (links-StandsFor hashes rowid (suc index) l (rw e at i))
    | inr (r, f, e) ↦ elim (rw e at i) [
      | inl same ↦ rw same (record {
        i = 0;
        h = h;
        r = r;
        at = omega arith;
        of_block = refl;
        hash_there = refl;
        found = f;
        same_id = refl;
      })
      | inr j ↦ later (links-StandsFor hashes (suc rowid) (suc index) l j)
    ]
  ]

  links-each :
      (hashes : List Hash32) (rowid index i : ℕ) (h : Hash32) (r : TransactionRow)
      → get_elem? hashes i ≡ some h
      → find_transaction h txs ≡ some r
      → 0 < r.id
      → (l : LinkRow) × In l (links rowid index hashes)
        × (l.block_id ≡ block_id)
        × (l.block_index ≡ index + i)
        × (l.transaction_id ≡ r.id)
  links-each [] rowid index i h r e f pos_id = absurd (cc)
  links-each (g ∷ hashes) rowid index zero h r e f pos_id =
      elim (links-cases rowid index g hashes) [
        | inl (_, small) ↦ absurd (omega (arith, pos_id, small r (ground (arith, e, f))))
        | inr (q, f', e') ↦ (
          record { rowid = rowid; transaction_id = q.id; block_id = block_id; block_index = index },
          rw e' (inl refl),
          refl,
          omega arith,
          ground (arith, e, f, f'),
        )
      ]
  links-each (g ∷ hashes) rowid index (suc i) h r e f pos_id =
      elim (links-cases rowid index g hashes) [
        | inl (e', _) ↦
            let (l, j, a, b, c) = links-each hashes rowid (suc index) i h r e f pos_id in
            (l, rw e' j, a, omega (arith, b), c)
        | inr (q, f', e') ↦
            let (l, j, a, b, c) = links-each hashes (suc rowid) (suc index) i h r e f pos_id in
            (l, rw e' (inr j), a, omega (arith, b), c)
      ]

  links-once :
      (hashes : List Hash32) (rowid index : ℕ) (l m : LinkRow)
      → In l (links rowid index hashes)
      → In m (links rowid index hashes)
      → l.block_index ≡ m.block_index
      → l ≡ m
  unfolding link_rows
  links-once [] rowid index l m i j e = absurd i
  links-once (h ∷ hashes) rowid index l m i j e = elim (links-cases rowid index h hashes) [
    | inl (f, _) ↦ links-once hashes rowid (suc index) l m (rw f at i) (rw f at j) e
    | inr (r, _, f) ↦ elim (rw f at i) [
      | inl same ↦ elim (rw f at j) [
        | inl same' ↦ same ∙ sym same'
        | inr j' ↦
            let s = links-StandsFor hashes (suc rowid) (suc index) m j' in
            let first = ap (λ (x : LinkRow). x.block_index) same in
            absurd (omega (arith, s.at, first, e))
      ]
      | inr i' ↦ elim (rw f at j) [
        | inl same' ↦
            let s = links-StandsFor hashes (suc rowid) (suc index) l i' in
            let first = ap (λ (x : LinkRow). x.block_index) same' in
            absurd (omega (arith, s.at, first, e))
        | inr j' ↦ links-once hashes (suc rowid) (suc index) l m i' j' e
      ]
    ]
  ]

pub link_rows-Confirms :
    (txs : List TransactionRow) (hashes : List Hash32) (rowid block_id : ℕ)
    → Confirms txs block_id hashes
        (link_rows rowid block_id 0 (map (λ h. stored_id (find_transaction h txs)) hashes))
link_rows-Confirms txs hashes rowid block_id = record {
  only = λ l i.
      let s = links-StandsFor txs block_id hashes rowid 0 l i in
      let at : l.block_index ≡ s.i = omega (arith, s.at) in
      (s.h, s.r, s.of_block, ap (get_elem? hashes) at ∙ s.hash_there, s.found, s.same_id);
  each = λ i h r e f pos_id.
      let (l, j, a, b, c) = links-each txs block_id hashes rowid 0 i h r e f pos_id in
      (l, j, a, omega (arith, b), c);
  once = links-once txs block_id hashes rowid 0;
}
