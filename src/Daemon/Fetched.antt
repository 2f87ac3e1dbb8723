-- ===== src/Daemon/Fetched.antt =====
-- The backfill only reads: it keeps what reading keeps, whatever the node answers and whatever
-- statements fail.
use x_b10cslashbademeister.Common.{
  ℕ, zero, suc, ◌+◌, inl, inr, Bool-cases, Option, none, some, Option-cases, List, [], ◌∷◌, length,
  ltb,
}
use x_b10cslashbademeister.Types.{Hash32, Block, StoredBlock}
use x_b10cslashbademeister.Errors.{rpc_failure}
use x_b10cslashbademeister.Wire.{Btcd, MsgBlock, new_block_from_wire_block}
use x_b10cslashbademeister.Rpc.{BitcoinRpcClient}
use x_b10cslashbademeister.Storage.Database.{Database, Exec, pure, fail, lift, ◌>>=◌}
use x_b10cslashbademeister.Storage.Blocks.{block_by_hash}
use x_b10cslashbademeister.Storage.Insert.Preserved.{IsPreserved, stays, Preserves, bind-Preserves}
use x_b10cslashbademeister.Storage.Insert.Preserved.Walks.{block_by_hash-Preserves}
use x_b10cslashbademeister.Daemon.{missing_blocks_from, find_missing_blocks}

module _ (R : Database → Database → Type 0) (kept : IsPreserved R) where
  module _ (b : Btcd) (rpc : BitcoinRpcClient) (max : ℕ) where
    abbrev Again : (Hash32 → List Block → Exec (List Block)) → Type 0
    Again again = (current : Hash32) (res : List Block) → Preserves R (again current res)

    -- The block that the node has answered with, or its error.
    fetched-Preserves :
        (again : Hash32 → List Block → Exec (List Block)) (res : List Block)
        → (answer : Option MsgBlock) → Again again
        → Preserves R (elim answer as (λ x. Exec (List Block)) [
          | none ↦ fail rpc_failure
          | some wire_block ↦
              lift (new_block_from_wire_block b wire_block.header.timestamp wire_block) >>= λ block.
              again wire_block.header.prev_block (block ∷ res)
        ])
    fetched-Preserves again res none k = stays R kept
    fetched-Preserves again res (some wire_block) k =
        bind-Preserves R kept
          (lift (new_block_from_wire_block b wire_block.header.timestamp wire_block))
          (λ block. again wire_block.header.prev_block (block ∷ res)) (stays R kept)
          λ block. k wire_block.header.prev_block (block ∷ res)

    looked_up-Preserves :
        (again : Hash32 → List Block → Exec (List Block)) (current : Hash32) (res : List Block)
        → (db_block : Option StoredBlock) → Again again
        → Preserves R (elim db_block as (λ x. Exec (List Block)) [
          | some found ↦ pure res
          | none ↦ elim (rpc.get_block current) as (λ x. Exec (List Block)) [
            | none ↦ fail rpc_failure
            | some wire_block ↦
                lift (new_block_from_wire_block b wire_block.header.timestamp wire_block)
                >>= λ block. again wire_block.header.prev_block (block ∷ res)
          ]
        ])
    looked_up-Preserves again current res (some found) k = stays R kept
    looked_up-Preserves again current res none k =
        fetched-Preserves again res (rpc.get_block current) k

    missing_blocks_from-Preserves :
        (fuel : ℕ) → Again (λ current res. missing_blocks_from b rpc fuel max current res)
    unfolding missing_blocks_from
    missing_blocks_from-Preserves zero current res db = stays R kept db
    missing_blocks_from-Preserves (suc fuel) current res db =
        elim (Bool-cases (ltb max (length res))) [
          | inl long ↦ rw (long, missing_blocks_from) (stays R kept db)
          | inr short ↦
              rw (short, missing_blocks_from)
                (bind-Preserves R kept (block_by_hash current) _
                  (block_by_hash-Preserves R kept current)
                  (λ db_block.
                    looked_up-Preserves (λ c r. missing_blocks_from b rpc fuel max c r) current res
                      db_block (missing_blocks_from-Preserves fuel))
                  db)
        ]

  pub find_missing_blocks-Preserves :
      (b : Btcd) (rpc : Option BitcoinRpcClient) (max : ℕ)
      → Preserves R (find_missing_blocks b rpc max)
  unfolding find_missing_blocks
  find_missing_blocks-Preserves b none max db = stays R kept db
  find_missing_blocks-Preserves b (some rpc) max db = elim (Option-cases rpc.get_best_block_hash) [
    | inl e ↦ rw e (stays R kept db)
    | inr (current, e) ↦ rw e (missing_blocks_from-Preserves b rpc max (max + 2) current [] db)
  ]
