-- ===== src/Daemon/Loop.antt =====
-- What `Run` and its loop keep of the transactions, in every order of messages, receptions and
-- signals.
use x_b10cslashbademeister.Common.{Option}
use x_b10cslashbademeister.Wire.{Btcd}
use x_b10cslashbademeister.Rpc.{BitcoinRpcClient}
use x_b10cslashbademeister.Storage.Insert.Kept.{Kept, KeptIn, Kept-IsPreserved, Kept-Upserts}
use x_b10cslashbademeister.Daemon.{RunParams, BademeisterDaemon, Progress, daemon_of, Steps}
use x_b10cslashbademeister.Daemon.Preserved.{Steps-Preserves}
use x_b10cslashbademeister.Daemon.Service.{RunsTo}
use x_b10cslashbademeister.Daemon.Started.{RunsTo-Preserved}

-- Whatever the messages, the order of the steps and the statements that fail, and whether the loop
-- goes on, has returned or has panicked: every transaction that was stored is still stored under
-- its txid, with its id, its fee and its weight, and with a first_seen that is not later.
pub Steps-Kept :
    (b : Btcd) (d : BademeisterDaemon) (p : Progress)
    → Steps b d p
    → Kept d.storage.transactions (daemon_of p).storage.transactions
Steps-Kept b d p steps = Steps-Preserves KeptIn Kept-IsPreserved Kept-Upserts b d p steps

-- The same holds from the call of Run on, with the mempool and the blocks that it takes from the
-- node first, whatever the node answers.
pub RunsTo-Kept :
    (b : Btcd) (rpc : Option BitcoinRpcClient) (params : RunParams) (d : BademeisterDaemon)
    → (p : Progress) → RunsTo b rpc params d p
    → Kept d.storage.transactions (daemon_of p).storage.transactions
RunsTo-Kept b rpc params d p run =
    RunsTo-Preserved KeptIn Kept-IsPreserved Kept-Upserts b rpc params d p run
