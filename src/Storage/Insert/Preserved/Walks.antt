-- ===== src/Storage/Insert/Preserved/Walks.antt =====
-- The queries and the walks over blocks keep what reading and writing keep, whatever fails.
use x_b10cslashbademeister.Common.{
  ℕ, zero, suc, ◌+◌, ◌%◌, ◌^◌, inl, inr, Bool-cases, Option, none, some, ltb, ◌&&◌, ◌==◌,
}
use x_b10cslashbademeister.Types.{Hash32, hash_eq, StoredBlock}
use x_b10cslashbademeister.Errors.{panic, retrieving_parent, parent_not_found}
use x_b10cslashbademeister.Storage.Database.{
  Database, BlockRow, Exec, fail, lift, ◌>>=◌, wrap_exec, Query,
}
use x_b10cslashbademeister.Storage.Blocks.{query_blocks, query_block, block_by_hash, best_block_now}
use x_b10cslashbademeister.Storage.Chain.{parent_step, ancestor_step, common_ancestor_from, walk_to}
use x_b10cslashbademeister.Storage.Insert.Preserved.{
  IsPreserved, stays, Preserves, bind-Preserves, statement-Preserves,
}

module _ (R : Database → Database → Type 0) (kept : IsPreserved R) where
  query_block-Preserves : (q : Query BlockRow) → Preserves R (query_block q)
  unfolding query_block query_blocks
  query_block-Preserves q =
      bind-Preserves R kept (query_blocks q) _ (statement-Preserves R kept _ λ db. stays R kept db)
        λ found db. stays R kept db

  pub block_by_hash-Preserves : (h : Hash32) → Preserves R (block_by_hash h)
  unfolding block_by_hash
  block_by_hash-Preserves h = query_block-Preserves _

  pub best_block_now-Preserves : Preserves R best_block_now
  unfolding best_block_now
  best_block_now-Preserves = query_block-Preserves _

  option-Preserves :
      {A B : Type 0} (o : Option A) (m : Exec B) (f : A → Exec B)
      → Preserves R m
      → ((a : A) → Preserves R (f a))
      → Preserves R (elim o as (λ x. Exec B) [ none ↦ m | some a ↦ f a ])
  option-Preserves none m f k l = k
  option-Preserves (some a) m f k l = l a

  parent_step-Preserves :
      (again : StoredBlock → StoredBlock → Exec StoredBlock)
      → ((a b : StoredBlock) → Preserves R (again a b))
      → (a b : StoredBlock) → Preserves R (parent_step again a b)
  unfolding parent_step
  parent_step-Preserves again k a b =
      bind-Preserves R kept (wrap_exec retrieving_parent (block_by_hash a.parent))
        (λ a_parent. elim a_parent [ none ↦ fail (parent_not_found a.parent) | some p ↦ again p b ])
        (block_by_hash-Preserves a.parent)
        (λ a_parent.
          option-Preserves a_parent (fail (parent_not_found a.parent)) (λ p. again p b)
            (λ db. stays R kept db) (λ p. k p b))

  ancestor_step-Preserves :
      (again : StoredBlock → StoredBlock → Exec StoredBlock)
      → ((a b : StoredBlock) → Preserves R (again a b))
      → (a b : StoredBlock) → Preserves R (ancestor_step again a b)
  unfolding ancestor_step
  ancestor_step-Preserves again k a b db =
      elim (Bool-cases (a.height == b.height && hash_eq a.hash b.hash)) [
        | inl e ↦ rw e (stays R kept db)
        | inr e ↦
            elim (Bool-cases (a.height == (b.height + 1) % 2 ^ 32 && hash_eq a.parent b.hash)) [
              | inl e' ↦ rw (e, e') (stays R kept db)
              | inr e' ↦ rw (e, e') (parent_step-Preserves again k a b db)
            ]
      ]

  pub common_ancestor_from-Preserves :
      (fuel : ℕ) (a b : StoredBlock) → Preserves R (common_ancestor_from fuel a b)
  unfolding common_ancestor_from
  common_ancestor_from-Preserves zero a b db = stays R kept db
  common_ancestor_from-Preserves (suc fuel) a b db = elim (Bool-cases (ltb a.height b.height)) [
    | inl e ↦ rw e (
        ancestor_step-Preserves (common_ancestor_from fuel) (common_ancestor_from-Preserves fuel) b
          a db)
    | inr e ↦ rw e (
        ancestor_step-Preserves (common_ancestor_from fuel) (common_ancestor_from-Preserves fuel) a
          b db)
  ]

  pub walk_to-Preserves :
      {S : Type 0} (fuel : ℕ) (current end : StoredBlock) (f : StoredBlock → S → Exec S) (s : S)
      → ((b : StoredBlock) (t : S) → Preserves R (f b t))
      → Preserves R (walk_to fuel current end f s)
  unfolding walk_to
  walk_to-Preserves zero current end f s k db = stays R kept db
  walk_to-Preserves {S} (suc fuel) current end f s k db =
      elim (Bool-cases (hash_eq current.hash end.hash)) [
        | inl e ↦ rw (e, walk_to) (stays R kept db)
        | inr e ↦
            rw (e, walk_to)
              (bind-Preserves R kept (f current s)
                (λ t. block_by_hash current.parent >>= λ parent_block. elim parent_block [
                  | none ↦ lift panic
                  | some p ↦ walk_to fuel p end f t
                ])
                (k current s)
                (λ t.
                  bind-Preserves R kept (block_by_hash current.parent)
                    (λ parent_block. elim parent_block [
                      | none ↦ lift panic
                      | some p ↦ walk_to fuel p end f t
                    ])
                    (block_by_hash-Preserves current.parent)
                    (λ parent_block.
                      option-Preserves parent_block (lift panic) (λ p. walk_to fuel p end f t)
                        (λ db. stays R kept db) (λ p. walk_to-Preserves fuel p end f t k)))
                db)
      ]
