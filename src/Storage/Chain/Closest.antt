-- ===== src/Storage/Chain/Closest.antt =====
-- `CommonAncestor` finds the closest common ancestor wherever a stored one exists.
use x_b10cslashbademeister.Common.{
  ℕ, zero, suc, ◌+◌, ◌%◌, ◌^◌, ◌≤◌, ◌<◌, ◌≡◌, refl, sym, ap, ◌∙◌, inl, inr, false, ◌&&◌, some,
  Bool-cases, arith, ltb, ◌==◌,
}
use x_b10cslashbademeister.Types.{Hash32, hash_eq, hash_eq_iff, StoredBlock}
use x_b10cslashbademeister.Errors.{Result, ok}
use x_b10cslashbademeister.Storage.Database.{Database, Exec}
use x_b10cslashbademeister.Storage.Blocks.Lookup.{find_block, find_block-hash}
use x_b10cslashbademeister.Storage.Chain.{
  ancestor_step, common_ancestor_from, common_ancestor, pairs,
}
use x_b10cslashbademeister.Storage.Chain.Linked.{
  Ancestor, self, direct, up, IsStored, HasChains, found-IsStored, parent-height, Ancestor-height,
}
use x_b10cslashbademeister.Storage.Chain.Ancestor.{parent_step-some}

-- The run returned a stored common ancestor of `a` and `b`, of which `h` is an ancestor.
pub record Closest (db : Database) (h : Hash32) (a b : StoredBlock)
    (out : Result StoredBlock × Database) : Type 0 where
  pub block : StoredBlock
  pub returns : out ≡ (ok block, db)
  pub of_first : Ancestor db.blocks block.hash a
  pub of_second : Ancestor db.blocks block.hash b
  pub below : Ancestor db.blocks h block
  pub stored : IsStored db.blocks block

swap-Closest :
    {db : Database} {h : Hash32} {a b : StoredBlock} {out : Result StoredBlock × Database}
    → Closest db h a b out
    → Closest db h b a out
swap-Closest c = record {
  block = c.block;
  returns = c.returns;
  of_first = c.of_second;
  of_second = c.of_first;
  below = c.below;
  stored = c.stored;
}

module _ (db : Database) (chains : HasChains db) (h : Hash32) (x : StoredBlock)
    (known : find_block h db.blocks ≡ some x) where
  -- Where the tests of one call fail, a common ancestor of the two lies at or above the parent of
  -- the higher one, which is stored.
  parent-Ancestor :
      (a b : StoredBlock)
      → IsStored db.blocks a
      → IsStored db.blocks b
      → b.height ≤ a.height
      → (a.height == b.height && hash_eq a.hash b.hash) ≡ false
      → Ancestor db.blocks h a
      → Ancestor db.blocks h b
      → (p : StoredBlock) × (find_block a.parent db.blocks ≡ some p) × Ancestor db.blocks h p
  parent-Ancestor a b sa sb le e (self q) of_b =
      let low = Ancestor-height x chains.linked sb known of_b in
      let row : sa.row ≡ x = ground (arith, sa.found, known, q) in
      let level : x.height ≡ a.height =
        ap (λ (r : StoredBlock). r.height) (sym row) ∙ sa.same_height in
      let same : a.hash ≡ b.hash = q ∙ sym (low.1 (omega (arith, low.0))) in
      absurd (ground (arith, low.0, (hash_eq_iff a.hash b.hash).1 same))
  parent-Ancestor a b sa sb le e (direct q) of_b =
      (x, ap (λ g. find_block g db.blocks) q ∙ known, self (find_block-hash h db.blocks known))
  parent-Ancestor a b sa sb le e (up {c} {p} q anc) of_b = (p, q, anc)

  ancestor_step-Closest :
      (again : StoredBlock → StoredBlock → Exec StoredBlock) (a b : StoredBlock)
      → IsStored db.blocks a
      → IsStored db.blocks b
      → b.height ≤ a.height
      → Ancestor db.blocks h a
      → Ancestor db.blocks h b
      → ((p : StoredBlock)
          → find_block a.parent db.blocks ≡ some p
          → Ancestor db.blocks h p
          → Closest db h p b (again p b db))
      → Closest db h a b (ancestor_step again a b db)
  unfolding ancestor_step
  ancestor_step-Closest again a b sa sb le of_a of_b rec =
      elim (Bool-cases (a.height == b.height && hash_eq a.hash b.hash)) [
        | inl e ↦ record {
          block = a;
          returns = rw e;
          of_first = self refl;
          of_second = self (ground (arith, hash_eq_iff a.hash b.hash));
          below = of_a;
          stored = sa;
        }
        | inr e ↦
            elim (Bool-cases (a.height == (b.height + 1) % 2 ^ 32 && hash_eq a.parent b.hash)) [
              | inl e' ↦ record {
                block = b;
                returns = rw (e, e');
                of_first = direct (ground (arith, hash_eq_iff a.parent b.hash));
                of_second = self refl;
                below = of_b;
                stored = sb;
              }
              | inr e' ↦
                  let (p, q, anc) = parent-Ancestor a b sa sb le e of_a of_b in
                  let c = rec p q anc in
                  record {
                    block = c.block;
                    returns = rw (e, e') (parent_step-some db chains again a b p q ∙ c.returns);
                    of_first = up q c.of_first;
                    of_second = c.of_second;
                    below = c.below;
                    stored = c.stored;
                  }
            ]
      ]

  common_ancestor_from-Closest :
      (fuel : ℕ) (a b : StoredBlock)
      → IsStored db.blocks a
      → IsStored db.blocks b
      → a.height + b.height < fuel
      → Ancestor db.blocks h a
      → Ancestor db.blocks h b
      → Closest db h a b (common_ancestor_from fuel a b db)
  unfolding common_ancestor_from
  common_ancestor_from-Closest zero a b sa sb lt of_a of_b = elim lt [ ]
  common_ancestor_from-Closest (suc fuel) a b sa sb lt of_a of_b =
      elim (Bool-cases (ltb a.height b.height)) [
        | inl e ↦ rw e (
            swap-Closest (
              ancestor_step-Closest (common_ancestor_from fuel) b a sb sa (ground arith) of_b of_a
                λ p q anc.
                  common_ancestor_from-Closest fuel p a (found-IsStored b.parent p q) sa
                    (omega (arith, parent-height b p chains.linked sb q)) anc of_a))
        | inr e ↦ rw e (
            ancestor_step-Closest (common_ancestor_from fuel) a b sa sb (ground arith) of_a of_b
              λ p q anc.
                common_ancestor_from-Closest fuel p b (found-IsStored a.parent p q) sb
                  (omega (arith, parent-height a p chains.linked sa q)) anc of_b)
      ]

  -- On chains, if a stored block `h` is an ancestor of two stored blocks, `CommonAncestor` returns
  -- a stored common ancestor of the two and changes nothing, and `h` is an ancestor of the result,
  -- which is therefore the closest one.
  pub common_ancestor-Closest :
      (a b : StoredBlock)
      → IsStored db.blocks a
      → IsStored db.blocks b
      → Ancestor db.blocks h a
      → Ancestor db.blocks h b
      → Closest db h a b (common_ancestor a b db)
  unfolding common_ancestor
  common_ancestor-Closest a b sa sb =
      common_ancestor_from-Closest (suc (a.height + b.height + pairs db)) a b sa sb (omega arith)
