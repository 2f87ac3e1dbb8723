-- ===== src/Tests/Service.antt =====
-- The theorems on `Run` as a whole and on the exits of the program, at short runs.
use x_b10cslashbademeister.Common.{inl, inr, ℕ, ◌≡◌, refl, true, false, none, some, [], ◌∷◌}
use x_b10cslashbademeister.Types.{at_second}
use x_b10cslashbademeister.Errors.{ok}
use x_b10cslashbademeister.Zmq.{ZmqSubscriber}
use x_b10cslashbademeister.Zmq.Subscription.{Socket, subscribe, new_zmq_subscriber}
use x_b10cslashbademeister.Zmq.Subscription.Swapped.{fresh}
use x_b10cslashbademeister.Rpc.{BitcoinRpcClient}
use x_b10cslashbademeister.Rpc.Client.{ConnConfig}
use x_b10cslashbademeister.Storage.Database.{Database, statement}
use x_b10cslashbademeister.Storage.Transactions.{tx_count}
use x_b10cslashbademeister.Storage.Setup.{
  Schema, exec, get_version, migrate, new_storage, close_storage, database_of,
}
use x_b10cslashbademeister.Storage.Insert.Kept.{Kept}
use x_b10cslashbademeister.Daemon.{
  start, dump_stats, BademeisterDaemon, returned, none_yet, and_then, stop, receive_quit,
  receive_block, daemon_of, Progress, progress_of, process_block, after_block,
}
use x_b10cslashbademeister.Daemon.Service.{new_bademeister_daemon, daemon_at, RunsTo, loops, close}
use x_b10cslashbademeister.Daemon.Loop.{RunsTo-Kept}
use x_b10cslashbademeister.Storage.Insert.Anchored.{first, above}
use x_b10cslashbademeister.Storage.Insert.Preserved.Anchors.{IsGrounded}
use x_b10cslashbademeister.Daemon.Chains.{RunsTo-Grounded}
use x_b10cslashbademeister.Tests.Insert.{child}
use x_b10cslashbademeister.Program.{
  info, Flags, default_flags, default_rpc_address, System, set_log_level, connect, prepare,
  run_params, exit_code, Exits, runs,
}
use x_b10cslashbademeister.Program.Codes.{Exits-no_password}
use x_b10cslashbademeister.Tests.Scenario.{in_order}
use x_b10cslashbademeister.Tests.Chain.{row, reorg_db, reorg-UniqueHashes, in_order-IsSound}
use x_b10cslashbademeister.Tests.Types.{toy}
use x_b10cslashbademeister.Tests.Client.{toy_library}

abbrev socket : Socket
socket = record {
  new_socket_fails = false;
  set_subscribe_fails = λ topic. false;
  connect_fails = false;
}

abbrev stored : Schema
stored = record {
  config = some (5 ∷ []);
  transactions = some reorg_db.transactions;
  blocks = some reorg_db.blocks;
  transaction_blocks = some reorg_db.transaction_blocks;
}

abbrev system : System ℕ
system = record {
  node = 7;
  disk = record {
    file = some stored;
    stat_fails = false;
    open_fails = false;
    close_fails = false;
    faults = [];
    leaves_file = true;
  };
}

-- Without the node's help.
abbrev flags : Flags
flags = record {
  rpc_address = [];
  init_blocks_rpc = false;
  init_mempool_rpc = false;
  log_level = info;
}

abbrev opened : Database
opened = record reorg_db { last_rowid = 0 }

-- What a node answers that has nothing.
abbrev answers : ConnConfig → BitcoinRpcClient
answers cfg = record {
  get_best_block_hash = none;
  get_block = λ h. none;
  get_raw_mempool_verbose = none;
}

-- A daemon that is stopped at once.
abbrev after_stop : BademeisterDaemon
after_stop = record (daemon_at fresh opened) { quit = true }

short_run : RunsTo toy none (run_params flags) (daemon_at fresh opened) (returned after_stop none)
unfolding start dump_stats tx_count statement
short_run = loops (at_second 1) refl (and_then (and_then none_yet stop) (receive_quit refl))

RunsTo-Kept_example : Kept opened.transactions after_stop.storage.transactions
RunsTo-Kept_example =
    RunsTo-Kept toy none (run_params flags) (daemon_at fresh opened) (returned after_stop none)
      short_run

short_exit : Exits toy_library toy socket in_order answers flags system 0
unfolding prepare connect set_log_level new_zmq_subscriber subscribe new_bademeister_daemon
    new_storage get_version migrate exec database_of close close_storage exit_code
short_exit = runs fresh none opened after_stop none refl refl short_run refl

known_level : set_log_level info ≡ ok tt
unfolding set_log_level
known_level = refl

made : new_zmq_subscriber socket ≡ ok fresh
unfolding new_zmq_subscriber subscribe
made = refl

Exits-no_password_example :
    Exits toy_library toy socket in_order answers default_flags system 1
    × ((code : ℕ)
        → Exits toy_library toy socket in_order answers default_flags system code
        → code ≡ 1)
    × ((prepare toy_library socket default_flags system).1 ≡ system)
Exits-no_password_example =
    Exits-no_password toy_library toy socket in_order answers default_flags system fresh
      (record { host = default_rpc_address; username = []; password = none }) known_level made refl
      refl refl

-- The first block meets an empty table, the others their parents.
opened-IsGrounded : IsGrounded opened
opened-IsGrounded = record {
  fair = in_order-IsSound.blocks;
  unique = reorg-UniqueHashes;
  anchored = (
    first λ s i. elim i [ ],
    (
      above (row 1 101 0 0 100 true) (inl refl) refl refl,
      (
        above (row 2 102 101 1 200 true) (inr (inl refl)) refl refl,
        (
          above (row 1 101 0 0 100 true) (inl refl) refl refl,
          (above (row 4 111 101 1 400 false) (inr (inr (inr (inl refl)))) refl refl, tt),
        ),
      ),
    ),
  );
}

-- A daemon that takes one block from its channel.
abbrev waiting_block : ZmqSubscriber
waiting_block = record fresh { incoming_blocks = child ∷ [] }

abbrev ready : BademeisterDaemon
ready = daemon_at waiting_block opened

abbrev started : Database
started = (dump_stats (at_second 1) (start toy none (run_params flags) opened).1).1

abbrev after_block_113 : Progress
after_block_113 = progress_of (process_block child started).0 (record (daemon_at fresh opened) {
  storage =
      after_block (process_block child started).0 (at_second 2) (process_block child started).1;
})

started_ok : (start toy none (run_params flags) opened).0 ≡ ok tt
unfolding start
started_ok = refl

block_run : RunsTo toy none (run_params flags) ready after_block_113
block_run =
    loops (at_second 1) started_ok (and_then none_yet (receive_block child [] (at_second 2) refl))

RunsTo-Grounded_example : IsGrounded (daemon_of after_block_113).storage
RunsTo-Grounded_example =
    RunsTo-Grounded toy none (run_params flags) ready after_block_113 block_run opened-IsGrounded
