-- ===== src/Storage/Blocks.antt =====
-- The queries of src/storage/storage_block.go over the table "block".
pub mod Latest
pub mod Lookup
use x_b10cslashbademeister.Common.{
  ℕ, Bool, true, false, ◌&&◌, ◌||◌, Option, none, some, List, [], ◌∷◌, map, ltb, leb, ◌==◌, head?,
}
use x_b10cslashbademeister.Types.{Time, at_second, Hash32, hash_eq, StoredBlock}
use x_b10cslashbademeister.Errors.{ok}
use x_b10cslashbademeister.Storage.Database.{
  Database, BlockRow, Engine, Exec, pure, ◌>>=◌, statement, Query, format_query,
}

-- `BlockIterator.Next`: a row as a block. The transaction ids and the encoded time stay empty.
unfoldable pub to_stored_block : BlockRow → StoredBlock
to_stored_block r = record {
  dbid = r.id;
  block = record {
    hash = r.hash;
    parent = r.parent;
    first_seen = at_second r.first_seen;
    height = r.height;
    is_best = r.is_best;
    tx_ids = [];
    encoded_time = none;
  };
}

-- The rows, as `Collect` returns them.
unfoldable pub query_blocks : Query BlockRow → Exec (List StoredBlock)
query_blocks q =
    statement
      λ db. (ok (map to_stored_block (format_query q (db.engine.scan_blocks db.blocks))), db)

-- The first row, or nil.
unfoldable pub query_block : Query BlockRow → Exec (Option StoredBlock)
unfolding query_blocks
query_block q = do found ← query_blocks q; pure (head? found)

unfoldable pub block_by_hash : Hash32 → Exec (Option StoredBlock)
unfolding query_block
block_by_hash h =
    query_block (record { condition = λ r. hash_eq r.hash h; order = none; limit = 1 })

-- ORDER BY first_seen DESC
unfoldable pub later_block : BlockRow → BlockRow → Bool
later_block r s = ltb s.first_seen r.first_seen

unfoldable pub best_block_now : Exec (Option StoredBlock)
unfolding query_block
best_block_now =
    query_block (record { condition = λ r. r.is_best; order = some later_block; limit = 1 })

unfoldable pub has_blocks : Exec Bool
unfolding best_block_now
has_blocks = do block ← best_block_now; pure (elim block [ none ↦ false | some b ↦ true ])

unfoldable pub best_block_at_time : Time → Exec (Option StoredBlock)
unfolding query_block
best_block_at_time t = query_block (record {
  condition = λ r. r.is_best && leb r.first_seen t.sec;
  order = some later_block;
  limit = 1;
})

-- ORDER BY first_seen ASC, id ASC
unfoldable pub earlier_block : BlockRow → BlockRow → Bool
earlier_block r s = ltb r.first_seen s.first_seen || (r.first_seen == s.first_seen && ltb r.id s.id)

unfoldable pub next_best_blocks : Time → ℕ → ℕ → Exec (List StoredBlock)
unfolding query_blocks
next_best_blocks t dbid limit = query_blocks (record {
  condition =
      λ r. (ltb t.sec r.first_seen || (r.first_seen == t.sec && ltb dbid r.id)) && r.is_best;
  order = some earlier_block;
  limit = limit;
})
