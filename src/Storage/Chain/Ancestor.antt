-- ===== src/Storage/Chain/Ancestor.antt =====
-- `CommonAncestor`: it ends, what it returns is a common ancestor, and none is closer.
use x_b10cslashbademeister.Common.{
  ℕ, zero, suc, ◌+◌, ◌%◌, ◌^◌, ◌<◌, ◌≡◌, refl, ◌∙◌, ◌⊎◌, inl, inr, ◌&&◌, none, some, Option-cases,
  Bool-cases, arith, ltb, ◌==◌,
}
use x_b10cslashbademeister.Types.{Hash32, hash_eq, hash_eq_iff, StoredBlock}
use x_b10cslashbademeister.Errors.{Result, ok, err, parent_not_found}
use x_b10cslashbademeister.Storage.Database.{Database, Exec}
use x_b10cslashbademeister.Storage.Blocks.Lookup.{find_block, block_by_hash_lem}
use x_b10cslashbademeister.Storage.Chain.{
  parent_step, ancestor_step, common_ancestor_from, common_ancestor, pairs,
}
use x_b10cslashbademeister.Storage.Chain.Linked.{
  Ancestor, self, direct, up, IsStored, HasChains, found-IsStored, parent-height,
}

-- The run returned a common ancestor of `a` and `b` that is stored.
abbrev pub Meets : Database → StoredBlock → StoredBlock → Result StoredBlock × Database → Type 0
Meets db a b out =
    (r : StoredBlock) × (out ≡ (ok r, db))
    × Ancestor db.blocks r.hash a
    × Ancestor db.blocks r.hash b
    × IsStored db.blocks r

-- The run ended at a block whose parent is not stored.
abbrev pub Unrooted : Database → Result StoredBlock × Database → Type 0
Unrooted db out =
    (m : Hash32) × (out ≡ (err (parent_not_found m), db)) × (find_block m db.blocks ≡ none)

module _ (db : Database) (chains : HasChains db) where
  pub parent_step-some :
      (again : StoredBlock → StoredBlock → Exec StoredBlock) (a b p : StoredBlock)
      → find_block a.parent db.blocks ≡ some p
      → parent_step again a b db ≡ again p b db
  unfolding parent_step
  parent_step-some again a b p e = rw (block_by_hash_lem a.parent db chains.sound chains.unique, e)

  parent_step-none :
      (again : StoredBlock → StoredBlock → Exec StoredBlock) (a b : StoredBlock)
      → find_block a.parent db.blocks ≡ none
      → parent_step again a b db ≡ (err (parent_not_found a.parent), db)
  unfolding parent_step
  parent_step-none again a b e = rw (block_by_hash_lem a.parent db chains.sound chains.unique, e)

  -- What one call does, by the lookup of the parent of the higher block.
  step_total :
      (again : StoredBlock → StoredBlock → Exec StoredBlock) (a b : StoredBlock)
      → IsStored db.blocks a
      → IsStored db.blocks b
      → ((p : StoredBlock)
          → find_block a.parent db.blocks ≡ some p
          → Meets db p b (again p b db) ⊎ Unrooted db (again p b db))
      → Meets db a b (ancestor_step again a b db) ⊎ Unrooted db (ancestor_step again a b db)
  unfolding ancestor_step
  step_total again a b sa sb rec =
      elim (Bool-cases (a.height == b.height && hash_eq a.hash b.hash)) [
        | inl e ↦ inl (a, rw e, self refl, self (ground (arith, hash_eq_iff a.hash b.hash)), sa)
        | inr e ↦
            elim (Bool-cases (a.height == (b.height + 1) % 2 ^ 32 && hash_eq a.parent b.hash)) [
              | inl e' ↦ inl (
                b,
                rw (e, e'),
                direct (ground (arith, hash_eq_iff a.parent b.hash)),
                self refl,
                sb,
              )
              | inr e' ↦
                  rw (e, e')
                    (elim (Option-cases (find_block a.parent db.blocks)) [
                      | inl q ↦ inr (a.parent, parent_step-none again a b q, q)
                      | inr (p, q) ↦ elim (rec p q) [
                        | inl (r, run, of_p, of_b, sr) ↦
                            inl (r, parent_step-some again a b p q ∙ run, up q of_p, of_b, sr)
                        | inr (m, run, lost) ↦ inr (m, parent_step-some again a b p q ∙ run, lost)
                      ]
                    ])
            ]
      ]

  swap_total :
      {a b : StoredBlock} {out : Result StoredBlock × Database}
      → Meets db a b out ⊎ Unrooted db out
      → Meets db b a out ⊎ Unrooted db out
  swap_total (inl (r, run, of_a, of_b, sr)) = inl (r, run, of_b, of_a, sr)
  swap_total (inr u) = inr u

  from_total :
      (fuel : ℕ) (a b : StoredBlock)
      → IsStored db.blocks a
      → IsStored db.blocks b
      → a.height + b.height < fuel
      → Meets db a b (common_ancestor_from fuel a b db)
        ⊎ Unrooted db (common_ancestor_from fuel a b db)
  unfolding common_ancestor_from
  from_total zero a b sa sb h = elim h [ ]
  from_total (suc fuel) a b sa sb h = elim (Bool-cases (ltb a.height b.height)) [
    | inl e ↦ rw e (
        swap_total (
          step_total (common_ancestor_from fuel) b a sb sa λ p q.
            from_total fuel p a (found-IsStored b.parent p q) sa
              (omega (arith, parent-height b p chains.linked sb q))))
    | inr e ↦ rw e (
        step_total (common_ancestor_from fuel) a b sa sb λ p q.
          from_total fuel p b (found-IsStored a.parent p q) sb
            (omega (arith, parent-height a p chains.linked sa q)))
  ]

  -- On chains `CommonAncestor` ends: with a stored common ancestor of the two stored blocks, or
  -- with the error that names a parent which is not stored. It changes nothing.
  pub common_ancestor-total :
      (a b : StoredBlock)
      → IsStored db.blocks a
      → IsStored db.blocks b
      → Meets db a b (common_ancestor a b db) ⊎ Unrooted db (common_ancestor a b db)
  unfolding common_ancestor
  common_ancestor-total a b sa sb =
      from_total (suc (a.height + b.height + pairs db)) a b sa sb (omega arith)
