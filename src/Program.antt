-- ===== src/Program.antt =====
-- cmd/daemon/main.go: the flags, what the program makes before `Run`, and its exit code.
pub mod Codes
use x_b10cslashbademeister.Common.{
  ℕ, ◌≡◌, Bool, true, false, Option, none, some, List, [], ◌∷◌, length, ◌==◌, if◌then◌else◌,
}
use x_b10cslashbademeister.Errors.{
  Result, ok, err, panic, out_of_fuel, Error, invalid_log_level, Site, setting_up_subscriber,
  initializing_client,
}
use x_b10cslashbademeister.Wire.{Btcd}
use x_b10cslashbademeister.Zmq.{ZmqSubscriber}
use x_b10cslashbademeister.Zmq.Subscription.{Socket, new_zmq_subscriber}
use x_b10cslashbademeister.Rpc.{BitcoinRpcClient}
use x_b10cslashbademeister.Rpc.Client.{Text, Library, ConnConfig, new_bitcoin_rpc_client}
use x_b10cslashbademeister.Storage.Database.{
  Engine, Database, Run, pure, fail, lift, ◌>>=◌, ◌>>◌, wrap_exec,
}
use x_b10cslashbademeister.Storage.Setup.{Disk, database_of}
use x_b10cslashbademeister.Daemon.{RunParams, BademeisterDaemon, returned, crashed}
use x_b10cslashbademeister.Daemon.Service.{new_bademeister_daemon, daemon_at, RunsTo, close}

-- The values of the flag `log` that main knows, and every other.
pub data LogLevel : Type 0 where
  info debug trace other_level : LogLevel

-- The flags. The file of the flag `db` is the disk, and the address of the subscriber its socket.
pub record Flags : Type 0 where
  pub rpc_address : Text
  pub init_blocks_rpc : Bool
  pub init_mempool_rpc : Bool
  pub log_level : LogLevel

-- "http://127.0.0.1:18443"
abbrev pub default_rpc_address : Text
default_rpc_address =
    104 ∷ 116 ∷ 116 ∷ 112 ∷ 58 ∷ 47 ∷ 47 ∷ 49 ∷ 50 ∷ 55 ∷ 46 ∷ 48 ∷ 46 ∷ 48 ∷ 46 ∷ 49 ∷ 58 ∷ 49 ∷ 56
    ∷ 52 ∷ 52 ∷ 51 ∷ []

abbrev pub default_flags : Flags
default_flags = record {
  rpc_address = default_rpc_address;
  init_blocks_rpc = true;
  init_mempool_rpc = true;
  log_level = info;
}

-- The node, and the file of the database.
pub record System (N : Type 0) : Type 0 where
  pub node : N
  pub disk : Disk

abbrev pub on_node : {N A : Type 0} → Run N A → Run (System N) A
on_node m s = let (r, n) = m s.node in (r, record s { node = n })

abbrev pub on_disk : {N A : Type 0} → Run Disk A → Run (System N) A
on_disk m s = let (r, d) = m s.disk in (r, record s { disk = d })

unfoldable pub set_log_level : LogLevel → Result (Unit {0})
set_log_level info = ok tt
set_log_level debug = ok tt
set_log_level trace = ok tt
set_log_level other_level = err invalid_log_level

module _ {N Raw : Type 0} (library : Library N Raw) where
  -- An empty address is no client.
  unfoldable pub connect : Text → Run (System N) (Option ConnConfig)
  connect rpc_address = if length rpc_address == 0 then pure none else (do
    client ← wrap_exec initializing_client (on_node (new_bitcoin_rpc_client library rpc_address))
    pure (some client))

  -- `main` up to the call of `Run`. An error is a log.Fatal.
  unfoldable pub prepare : Socket → Flags → Run (System N) (ZmqSubscriber × Option ConnConfig)
  unfolding connect set_log_level
  prepare socket flags = do
    lift (set_log_level flags.log_level)
    zmq_sub ← wrap_exec setting_up_subscriber (lift (new_zmq_subscriber socket))
    client ← connect flags.rpc_address
    d ← on_disk (new_bademeister_daemon (some zmq_sub))
    pure (d, client)

-- What `main` exits with behind `Run`.
unfoldable pub exit_code : Option Error → Result (Unit {0}) → ℕ
exit_code none (ok u) = 0
exit_code none (err e) = 1
exit_code none panic = 2
exit_code none out_of_fuel = 2
exit_code (some e) r = 1

abbrev pub run_params : Flags → RunParams
run_params flags = record {
  init_mempool_rpc = flags.init_mempool_rpc;
  init_blocks_rpc = flags.init_blocks_rpc;
}

abbrev pub client_of : (ConnConfig → BitcoinRpcClient) → Option ConnConfig → Option BitcoinRpcClient
client_of answers none = none
client_of answers (some cfg) = some (answers cfg)

-- The exits of the program: log.Fatal ends it with 1, a panic with 2. `answers` are those of a node
-- behind a client. Where Run does not return, the program does not exit.
module _ {N Raw : Type 0} (library : Library N Raw) (b : Btcd) (socket : Socket) (engine : Engine)
    (answers : ConnConfig → BitcoinRpcClient) where
  pub data Exits (flags : Flags) (s : System N) : ℕ → Type 0 where
    fatal :
        {code : ℕ} (e : Error)
        → (prepare library socket flags s).0 ≡ err e
        → code ≡ 1
        → Exits flags s code
    panics : {code : ℕ} → (prepare library socket flags s).0 ≡ panic → code ≡ 2 → Exits flags s code
    runs :
        {code : ℕ} (zmq_sub : ZmqSubscriber) (client : Option ConnConfig) (db : Database)
        (d : BademeisterDaemon) (e : Option Error)
        → (prepare library socket flags s).0 ≡ ok (zmq_sub, client)
        → database_of engine (prepare library socket flags s).1.disk.file ≡ some db
        → RunsTo b
            (client_of answers client)
            (run_params flags)
            (daemon_at zmq_sub db)
            (returned d e)
        → code ≡ exit_code e (close (prepare library socket flags s).1.disk).0
        → Exits flags s code
    -- A file of version 5 may lack tables, where NewStorage has failed before. What Run does then is
    -- left open.
    unfinished :
        {code : ℕ} (zmq_sub : ZmqSubscriber) (client : Option ConnConfig) (e : Option Error)
        → (prepare library socket flags s).0 ≡ ok (zmq_sub, client)
        → database_of engine (prepare library socket flags s).1.disk.file ≡ none
        → code ≡ exit_code e (close (prepare library socket flags s).1.disk).0
        → Exits flags s code
    unfinished_panics :
        {code : ℕ} (zmq_sub : ZmqSubscriber) (client : Option ConnConfig)
        → (prepare library socket flags s).0 ≡ ok (zmq_sub, client)
        → database_of engine (prepare library socket flags s).1.disk.file ≡ none
        → code ≡ 2
        → Exits flags s code
    run_panics :
        {code : ℕ} (zmq_sub : ZmqSubscriber) (client : Option ConnConfig) (db : Database)
        (d : BademeisterDaemon)
        → (prepare library socket flags s).0 ≡ ok (zmq_sub, client)
        → database_of engine (prepare library socket flags s).1.disk.file ≡ some db
        → RunsTo b (client_of answers client) (run_params flags) (daemon_at zmq_sub db) (crashed d)
        → code ≡ 2
        → Exits flags s code
