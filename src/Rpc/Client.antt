-- ===== src/Rpc/Client.antt =====
-- src/bitcoinrpcclient/bitcoinrpcclient.go, and `GetRawMempoolVerbose` of rpcmempool.go. The
-- packages net/url, encoding/json, rpcclient, btcutil and chainhash are a parameter, and so is the
-- node, as a state that a call may change. A text is the list of its bytes.
pub mod Ready
pub mod Generated
use x_b10cslashbademeister.Common.{
  ℕ, suc, zero, ◌+◌, ◌-◌, Bool, true, false, Option, none, some, List, [], ◌∷◌, length, ◌==◌, ltb,
  leb, if◌then◌else◌,
}
use x_b10cslashbademeister.Types.{Hash32}
use x_b10cslashbademeister.Errors.{
  Result, ok, err, panic, out_of_fuel, Error, rpc_failure, rpc_address_empty, invalid_rpc_address,
  password_not_set, timed_out, deprecated, marshal_failure, raw_request_failure, unmarshal_failure,
  amount_failure, bad_chainhash,
}
use x_b10cslashbademeister.Rpc.{GetRawMempoolVerboseResult}
use x_b10cslashbademeister.Storage.Database.{Run, pure, fail, lift, ◌>>=◌, ◌>>◌}

abbrev pub Text : Type 0
Text = List ℕ

-- What url.Parse gives: the host, the name, and the password where one is set.
pub record Url : Type 0 where
  pub host : Text
  pub username : Text
  pub password : Option Text

-- The fields of rpcclient.ConnConfig that are set.
pub record ConnConfig : Type 0 where
  pub host : Text
  pub user : Text
  pub pass : Text

-- The methods that are called by their name.
pub data Method : Type 0 where
  generate_to_address_method get_raw_mempool_method : Method

-- The packages. `N` is the state of the node and of what lies between, `Raw` a JSON text; none is
-- an error. `amount` is btcutil.NewAmount(0.1), in satoshis.
pub record Library (N Raw : Type 0) : Type 0 where
  pub parse_url : Text → Option Url
  pub new_client : ConnConfig → Bool
  pub marshal_number : ℕ → Option Raw
  pub marshal_text : Text → Option Raw
  pub marshal_true : Option Raw
  pub unmarshal_texts : Raw → Option (List Text)
  pub unmarshal_mempool : Raw → Option (List (Text × GetRawMempoolVerboseResult))
  pub new_hash_from_str : Text → Option Hash32
  pub amount : Option ℕ
  pub get_block_count : N → Option ℕ × N
  pub get_block_chain_info : N → Option ℕ × N
  pub raw_request : Method → List Raw → N → Option Raw × N
  pub import_priv_key : Text → N → Option (Unit {0}) × N
  pub send_to_address : Text → ℕ → N → Option Hash32 × N

-- An answer of a package, with the error that the code returns in its place.
abbrev pub or_error : {A : Type 0} → Error → Option A → Result A
or_error e none = err e
or_error e (some a) = ok a

abbrev pub call : {N A : Type 0} → Error → (N → Option A × N) → Run N A
call e f n = let (answer, n') = f n in (or_error e answer, n')

abbrev pub check_interval : ℕ
check_interval = 100

module _ {N Raw : Type 0} (library : Library N Raw) where
  -- The loop of `waitTillRPCServerReady`, in milliseconds. Every round that goes on adds 100.
  unfoldable pub wait_from : ℕ → ℕ → ℕ → Run N (Unit {0})
  wait_from zero timeout current_wait_time = lift out_of_fuel
  wait_from (suc fuel) timeout current_wait_time = elim (ltb current_wait_time timeout) [
    | false ↦ fail timed_out
    | true ↦ λ n. elim (library.get_block_count n).0 [
      | some count ↦ (ok tt, (library.get_block_count n).1)
      | none ↦
          wait_from fuel timeout (current_wait_time + check_interval) (library.get_block_count n).1
    ]
  ]

  unfoldable pub wait_till_rpc_server_ready : ℕ → Run N (Unit {0})
  unfolding wait_from
  wait_till_rpc_server_ready timeout = wait_from (suc timeout) timeout 0

  -- `NewBitcoinRPCClient`
  abbrev with_config : Url → Option Text → Result ConnConfig
  with_config u none = err password_not_set
  with_config u (some pass) = ok (record { host = u.host; user = u.username; pass = pass })

  unfoldable pub parse_address : Text → Result ConnConfig
  parse_address rpc_address =
      if length rpc_address == 0
      then err rpc_address_empty
      else elim (library.parse_url rpc_address) [
        | none ↦ err invalid_rpc_address
        | some u ↦ with_config u u.password
      ]

  unfoldable pub new_bitcoin_rpc_client : Text → Run N ConnConfig
  unfolding parse_address wait_till_rpc_server_ready
  new_bitcoin_rpc_client rpc_address = do
    cfg ← lift (parse_address rpc_address)
    (if library.new_client cfg then pure tt else fail rpc_failure)
    wait_till_rpc_server_ready 10000
    pure cfg

  -- `Generate`
  unfoldable pub generate : ℕ → Run N (List Hash32)
  generate n_blocks = fail deprecated

  unfoldable pub chainhashes : List Text → Result (List Hash32)
  chainhashes [] = ok []
  chainhashes (text ∷ texts) =
      let rest = chainhashes texts in
      elim (library.new_hash_from_str text) [
        | none ↦ err (bad_chainhash text)
        | some h ↦ elim rest [
          | ok hs ↦ ok (h ∷ hs)
          | err e ↦ err e
          | panic ↦ panic
          | out_of_fuel ↦ out_of_fuel
        ]
      ]

  unfoldable pub generate_to_address : ℕ → Text → Run N (List Hash32)
  unfolding chainhashes
  generate_to_address n_blocks address = do
    json_n_blocks ← lift (or_error marshal_failure (library.marshal_number n_blocks))
    json_address ← lift (or_error marshal_failure (library.marshal_text address))
    res ←
        call raw_request_failure
          (library.raw_request generate_to_address_method (json_n_blocks ∷ json_address ∷ []))
    result ← lift (or_error unmarshal_failure (library.unmarshal_texts res))
    lift (chainhashes result)

  -- The arguments `test.MiningAddress` and the key are those of src/test/crypto.go.
  unfoldable pub generate_to_fixed_address : Text → ℕ → Run N (List Hash32)
  unfolding generate_to_address
  generate_to_fixed_address mining_address n_blocks = generate_to_address n_blocks mining_address

  -- A difference that is not above 0 returns nil.
  unfoldable pub generate_to_height : Text → ℕ → Run N (List Hash32)
  unfolding generate_to_fixed_address
  generate_to_height mining_address target_height = do
    blocks ← call rpc_failure library.get_block_chain_info
    (if leb target_height blocks
        then pure []
        else generate_to_fixed_address mining_address (target_height - blocks))

  abbrev pub min_regnet_block_height : ℕ
  min_regnet_block_height = 200

  unfoldable pub new_bitcoin_rpc_client_for_integration_test : Text → Text → Text → Run N ConnConfig
  unfolding new_bitcoin_rpc_client generate_to_height
  new_bitcoin_rpc_client_for_integration_test rpc_address mining_address wif = do
    client ← new_bitcoin_rpc_client rpc_address
    call rpc_failure (library.import_priv_key wif)
    generate_to_height mining_address min_regnet_block_height
    pure client

  unfoldable pub send_simple_transaction : Text → Run N Hash32
  send_simple_transaction address = do
    amount ← lift (or_error amount_failure library.amount)
    call rpc_failure (library.send_to_address address amount)

  unfoldable pub get_raw_mempool_verbose : Run N (List (Text × GetRawMempoolVerboseResult))
  get_raw_mempool_verbose = do
    json_arg_verbose ← lift (or_error marshal_failure library.marshal_true)
    raw_result ←
        call raw_request_failure
          (library.raw_request get_raw_mempool_method (json_arg_verbose ∷ []))
    lift (or_error unmarshal_failure (library.unmarshal_mempool raw_result))
