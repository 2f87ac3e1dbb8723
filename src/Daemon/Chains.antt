-- ===== src/Daemon/Chains.antt =====
-- What `Run` keeps of the blocks, in every order of messages, receptions and signals.
use x_b10cslashbademeister.Common.{Option}
use x_b10cslashbademeister.Wire.{Btcd}
use x_b10cslashbademeister.Rpc.{BitcoinRpcClient}
use x_b10cslashbademeister.Storage.Insert.Preserved.Anchors.{
  IsGrounded, Grounded-IsPreserved, Grounded-Upserts,
}
use x_b10cslashbademeister.Daemon.{RunParams, BademeisterDaemon, Progress, daemon_of}
use x_b10cslashbademeister.Daemon.Service.{RunsTo}
use x_b10cslashbademeister.Daemon.Started.{RunsTo-Preserved}

-- Whatever blocks come in, from the node at the start and in the messages, whatever the order of
-- the steps, whatever statements fail, and however Run ends: where the driver visits every block
-- once, no two rows of the table of blocks had one hash, and every row rested on the rows before it,
-- this holds afterwards. A row rests on others where its parent is the zero hash, none of them is
-- marked best, or one of them is its parent and its height is one more, as a uint32.
pub RunsTo-Grounded :
    (b : Btcd) (rpc : Option BitcoinRpcClient) (params : RunParams) (d : BademeisterDaemon)
    → (p : Progress) → RunsTo b rpc params d p
    → IsGrounded d.storage
    → IsGrounded (daemon_of p).storage
RunsTo-Grounded b rpc params d p run grounded =
    RunsTo-Preserved (λ a b. IsGrounded a → IsGrounded b) Grounded-IsPreserved Grounded-Upserts b
      rpc params d p run grounded
