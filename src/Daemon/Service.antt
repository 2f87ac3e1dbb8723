-- ===== src/Daemon/Service.antt =====
-- The construction of the daemon, `Run` as a whole, `Stop` and `Close`, of src/daemon/daemon.go.
use x_b10cslashbademeister.Common.{◌≡◌, false, Option, none, some}
use x_b10cslashbademeister.Types.{Time}
use x_b10cslashbademeister.Errors.{
  Result, ok, err, panic, out_of_fuel, Error, no_zmq_subscriber, initializing_storage,
  errors_see_logs,
}
use x_b10cslashbademeister.Wire.{Btcd}
use x_b10cslashbademeister.Zmq.{ZmqSubscriber}
use x_b10cslashbademeister.Rpc.{BitcoinRpcClient}
use x_b10cslashbademeister.Storage.Database.{Database, Run, pure, fail, ◌>>◌, wrap_exec}
use x_b10cslashbademeister.Storage.Setup.{Disk, new_storage, close_storage}
use x_b10cslashbademeister.Daemon.{
  RunParams, start, dump_stats, BademeisterDaemon, Progress, running, returned, crashed, Step,
  IsBeside, Steps,
}

-- `NewBademeisterDaemon`: the subscriber must not be nil, and the storage must open.
unfoldable pub new_bademeister_daemon : Option ZmqSubscriber → Run Disk ZmqSubscriber
new_bademeister_daemon none = fail no_zmq_subscriber
new_bademeister_daemon (some zmq_sub) = do wrap_exec initializing_storage new_storage; pure zmq_sub

-- The daemon with nothing received yet, on the tables of its file.
abbrev pub daemon_at : ZmqSubscriber → Database → BademeisterDaemon
daemon_at zmq_sub db = record { zmq_sub = zmq_sub; storage = db; quit = false; zmq_sub_err = none }

abbrev pub with_storage : Database → BademeisterDaemon → BademeisterDaemon
with_storage db d = record d { storage = db }

-- `Run` from its call on. The subscriber, the statistics and the callers of `Stop` run beside the
-- start as well as beside the loop. The start reads neither the channels nor the signal, and a
-- query of the statistics takes one fault of the driver and changes no table. So a step beside a
-- statement of the start stands before the start, with the faults of the driver in that order.
pub data RunsTo (b : Btcd) (rpc : Option BitcoinRpcClient) (params : RunParams)
    : BademeisterDaemon → Progress → Type 0 where
  start_fails :
      {d : BademeisterDaemon} (e : Error)
      → (start b rpc params d.storage).0 ≡ err e
      → RunsTo b rpc params d (returned (with_storage (start b rpc params d.storage).1 d) (some e))
  beside :
      {d d' : BademeisterDaemon} {p : Progress} (step : Step b d (running d'))
      → IsBeside step
      → RunsTo b rpc params d' p
      → RunsTo b rpc params d p
  beside_panics :
      {d d' : BademeisterDaemon} (step : Step b d (crashed d'))
      → IsBeside step
      → RunsTo b rpc params d (crashed d')
  start_overflows :
      {d : BademeisterDaemon}
      → (start b rpc params d.storage).0 ≡ out_of_fuel
      → RunsTo b rpc params d (crashed (with_storage (start b rpc params d.storage).1 d))
  start_panics :
      {d : BademeisterDaemon}
      → (start b rpc params d.storage).0 ≡ panic
      → RunsTo b rpc params d (crashed (with_storage (start b rpc params d.storage).1 d))
  loops :
      {d : BademeisterDaemon} {p : Progress} (now : Time)
      → (start b rpc params d.storage).0 ≡ ok tt
      → Steps b (with_storage (dump_stats now (start b rpc params d.storage).1).1 d) p
      → RunsTo b rpc params d p

abbrev errors_of : Result (Unit {0}) × Disk → Result (Unit {0}) × Disk
errors_of (ok u, d) = (ok u, d)
errors_of (err e, d) = (err errors_see_logs, d)
errors_of (panic, d) = (panic, d)
errors_of (out_of_fuel, d) = (out_of_fuel, d)

-- `Close`
unfoldable pub close : Run Disk (Unit {0})
close d = errors_of (close_storage d)
