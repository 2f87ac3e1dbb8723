-- ===== src/Errors.antt =====
-- What a call of the code can end in: a value, an error value, or a panic of the Go runtime. A
-- loop of the model that has used up its fuel is `out_of_fuel`, where the code's loop goes on.
use x_b10cslashbademeister.Common.{ℕ, List, Bool, true, false}
use x_b10cslashbademeister.Types.Hash.{Hash32}

-- The texts that errors.Errorf and errors.Wrap put around another error.
pub data Site : Type 0 where
  getting_dbids getting_tx_dbids retrieving_parent inserting_block inserting_links : Site
  inserting_transactions in_insert_block in_insert_transaction_block finding_best_block : Site
  decoding_tx_hash getting_raw_mempool : Site
  creating_config filling_config creating_transaction creating_block : Site
  creating_transaction_block initializing_database migrating_database : Site
  initializing_storage setting_up_subscriber initializing_client : Site

pub data Error : Type 0 where
  -- the database driver's error, and its refusal of a text that is no SQL
  engine_failure syntax_error : Error
  -- ErrorLookupTransactionDBIDs: how many of how many are missing
  missing_transactions : ℕ → ℕ → Error
  -- NewStorage, with the version of the file
  stat_failure open_failure close_failure : Error
  cannot_migrate : ℕ → Error
  -- CommonAncestor, insertBlock, ReorgBase
  parent_not_found : Hash32 → Error
  parent_block_nil : Error
  invalid_block_height : ℕ → Hash32 → Error
  not_chainhead : Error
  could_not_load_block : Hash32 → Error
  -- NewMempoolAtBlock, Seek
  not_on_consensus_chain : Hash32 → Hash32 → Error
  cannot_seek_backwards : Error
  -- NewBlockFromBytes, NewBlockFromWireBlock
  bad_block_bytes height_not_found : Error
  -- the daemon, the RPC client and its text of a hash
  invalid_log_level no_zmq_subscriber errors_see_logs : Error
  no_rpc_client rpc_failure max_backfill bad_hex : Error
  rpc_address_empty invalid_rpc_address password_not_set timed_out deprecated : Error
  marshal_failure raw_request_failure unmarshal_failure amount_failure : Error
  bad_chainhash : List ℕ → Error
  -- the ZMQ subscriber, with the name of the channel
  bad_payload_length bad_transaction_length bad_transaction_bytes unknown_topic : Error
  channel_capacity_exceeded_tx channel_capacity_exceeded_blocks receive_failure : Error
  socket_failure connect_failure timeout_failure : Error
  wrap : Site → Error → Error

pub data Result (A : Type 0) : Type 0 where
  ok : A → Result A
  err : Error → Result A
  panic : Result A
  out_of_fuel : Result A

infixl 5 ◌>>=◌
abbrev pub ◌>>=◌ : {A B : Type 0} → Result A → (A → Result B) → Result B
ok a >>= f = f a
err e >>= f = err e
panic >>= f = panic
out_of_fuel >>= f = out_of_fuel

-- `if err != nil { return errors.Errorf("...: %s", err) }`
abbrev pub wrap_error : {A : Type 0} → Site → Result A → Result A
wrap_error site (err e) = err (wrap site e)
wrap_error site r = r

-- `IsErrorMissingTransactions`
unfoldable pub is_error_missing_transactions : Error → Bool
is_error_missing_transactions (missing_transactions missing total) = true
is_error_missing_transactions _ = false
