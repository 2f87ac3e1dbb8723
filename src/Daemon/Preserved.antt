-- ===== src/Daemon/Preserved.antt =====
-- What every order of the daemon's steps preserves, because the methods of Storage preserve it:
-- a relation between the database before and after.
use x_b10cslashbademeister.Common.{◌≡◌, refl, Option, none, List, [], ◌∷◌, length}
use x_b10cslashbademeister.Types.{Time, Block, Transaction}
use x_b10cslashbademeister.Errors.{Result, ok, err, panic, out_of_fuel}
use x_b10cslashbademeister.Wire.{Btcd}
use x_b10cslashbademeister.Zmq.{process_message}
use x_b10cslashbademeister.Storage.Database.{Database, pure}
use x_b10cslashbademeister.Storage.Transactions.{insert_transactions, tx_count}
use x_b10cslashbademeister.Storage.Insert.{insert_block}
use x_b10cslashbademeister.Storage.Insert.Preserved.{
  IsPreserved, stays, Preserves, Upserts, bind-Preserves, statement-Preserves,
  insert_transactions-Preserves,
}
use x_b10cslashbademeister.Storage.Insert.Preserved.Blocks.{insert_block-Preserves}
use x_b10cslashbademeister.Daemon.{
  process_transactions, process_transaction, process_block, BademeisterDaemon, Progress, running,
  daemon_of, progress_of, delivered, Step, message, subscriber_returns, stop, receive_quit,
  receive_tx, receive_block, dump_stats_loop, Stats, dump_stats_rel, dump_stats, after_block, Steps,
  none_yet, and_then,
}

pub daemon_of-progress_of :
    (r : Result (Unit {0})) (d : BademeisterDaemon) → daemon_of (progress_of r d) ≡ d
daemon_of-progress_of (ok u) d = refl
daemon_of-progress_of (err e) d = refl
daemon_of-progress_of panic d = refl
daemon_of-progress_of out_of_fuel d = refl

pub daemon_of-delivered :
    (r : Result (Unit {0})) (d : BademeisterDaemon) → daemon_of (delivered r d) ≡ d
daemon_of-delivered (ok u) d = refl
daemon_of-delivered (err e) d = refl
daemon_of-delivered panic d = refl
daemon_of-delivered out_of_fuel d = refl

module _ (R : Database → Database → Type 0) (kept : IsPreserved R) where
  pub process_transactions-Preserves :
      (txs : List Transaction) → Preserves R (process_transactions txs)
  unfolding process_transactions
  process_transactions-Preserves txs =
      bind-Preserves R kept (insert_transactions txs) (λ id. pure tt)
        (insert_transactions-Preserves R kept txs) λ id db. stays R kept db

  pub process_block-Preserves :
      (block : Block) → Upserts R block → Preserves R (process_block block)
  unfolding process_block
  process_block-Preserves block upserts =
      bind-Preserves R kept (insert_block block) (λ id. pure tt)
        (insert_block-Preserves R kept block upserts) λ id db. stays R kept db

  pub dump_stats_rel-Preserves :
      (prev : Option Stats) (now : Time) (db : Database) → R db (dump_stats_rel prev now db).1
  unfolding dump_stats_rel tx_count
  dump_stats_rel-Preserves prev now db =
      statement-Preserves R kept (λ d. (ok (length d.transactions), d)) (stays R kept) db

  after_block-Preserves :
      (r : Result (Unit {0})) (now : Time) (db : Database) → R db (after_block r now db)
  unfolding dump_stats
  after_block-Preserves (ok u) now db = dump_stats_rel-Preserves none now db
  after_block-Preserves (err e) now db = stays R kept db
  after_block-Preserves panic now db = stays R kept db
  after_block-Preserves out_of_fuel now db = stays R kept db

  module _ (upserts : (block : Block) → Upserts R block) where
    pub Step-Preserves :
        (b : Btcd) (d : BademeisterDaemon) (p : Progress)
        → Step b d p
        → R d.storage (daemon_of p).storage
    Step-Preserves b d p (message now topic payload) =
        rw (daemon_of-delivered (process_message b now topic payload d.zmq_sub).0)
          (stays R kept d.storage)
    Step-Preserves b d p (subscriber_returns e) = stays R kept d.storage
    Step-Preserves b d p stop = stays R kept d.storage
    Step-Preserves b d p (receive_quit q) = stays R kept d.storage
    Step-Preserves b d p (receive_tx tx rest e) =
        rw (daemon_of-progress_of (process_transaction tx d.storage).0)
          (unfold process_transaction in process_transactions-Preserves (tx ∷ []) d.storage)
    Step-Preserves b d p (receive_block block rest now e) =
        rw (daemon_of-progress_of (process_block block d.storage).0) (
          kept.trans _ _ _ (process_block-Preserves block (upserts block) d.storage) (
            after_block-Preserves (process_block block d.storage).0 now
              (process_block block d.storage).1))
    Step-Preserves b d p (dump_stats_loop prev now) = dump_stats_rel-Preserves prev now d.storage

    pub Steps-Preserves :
        (b : Btcd) (d : BademeisterDaemon) (p : Progress)
        → Steps b d p
        → R d.storage (daemon_of p).storage
    Steps-Preserves b d p none_yet = stays R kept d.storage
    Steps-Preserves b d p (and_then {d'} steps step) =
        kept.trans _ _ _ (Steps-Preserves b d (running d') steps) (Step-Preserves b d' p step)
