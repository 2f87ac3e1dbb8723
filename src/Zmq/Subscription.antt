-- ===== src/Zmq/Subscription.antt =====
-- `NewZMQSubscriber` and `Run` of src/zmqsubscriber/zmqsubscriber.go: the loop that receives, the
-- goroutines that parse, and who else touches the subscriber, as steps that any scheduler may
-- order. The library zmq4 is a parameter: what its calls return.
pub mod Returns
pub mod Stopping
pub mod Swapped
use x_b10cslashbademeister.Common.{
  ℕ, zero, suc, ◌+◌, ◌≡◌, ◌≢◌, Bool, true, false, Option, none, some, List, [], ◌∷◌, ◌++◌,
  if◌then◌else◌,
}
use x_b10cslashbademeister.Types.{Time, Block, Transaction}
use x_b10cslashbademeister.Errors.{
  Result, ok, err, panic, out_of_fuel, Error, socket_failure, connect_failure, timeout_failure,
  receive_failure,
}
use x_b10cslashbademeister.Wire.{Btcd}
use x_b10cslashbademeister.Zmq.{
  Topic, topic_raw_tx_with_fee, topic_raw_block, ZmqSubscriber, process_message, stop,
}

-- What zmq4 answers while the socket is made: whether each call fails.
pub record Socket : Type 0 where
  pub new_socket_fails : Bool
  pub set_subscribe_fails : Topic → Bool
  pub connect_fails : Bool

-- The loop over the topics.
unfoldable pub subscribe : Socket → List Topic → Result (Unit {0})
subscribe socket [] = ok tt
subscribe socket (topic ∷ topics) =
    let rest = subscribe socket topics in
    if socket.set_subscribe_fails topic then err socket_failure else rest

abbrev pub topics : List Topic
topics = topic_raw_tx_with_fee ∷ topic_raw_block ∷ []

abbrev connected : Socket → Result (Unit {0}) → Result ZmqSubscriber
connected socket (ok u) =
    if socket.connect_fails
    then err connect_failure
    else ok (record { incoming_tx = []; incoming_blocks = []; cancel = false })
connected socket (err e) = err e
connected socket panic = panic
connected socket out_of_fuel = out_of_fuel

unfoldable pub new_zmq_subscriber : Socket → Result ZmqSubscriber
unfolding subscribe
new_zmq_subscriber socket =
    if socket.new_socket_fails
    then err socket_failure
    else connected socket (subscribe socket topics)

-- Where the goroutine of `Run` stands: before the test of `z.cancel`, before the select, in
-- RecvMessageBytes, or behind its return, with the error.
pub data Phase : Type 0 where
  checking selecting receiving : Phase
  returned : Option Error → Phase

-- A message that a goroutine has to process.
abbrev pub Parts : Type 0
Parts = Topic × List (List ℕ)

-- `pending` are the goroutines that have not called processMessage yet, and `parse_errors` those
-- that wait to send their error on the channel without room. The socket is closed when Run
-- returns.
pub record Subscription : Type 0 where
  pub subscriber : ZmqSubscriber
  pub phase : Phase
  pub pending : List Parts
  pub parse_errors : List Error
  pub socket_open : Bool

-- What RecvMessageBytes returns: the parts, of which there is at least one; EAGAIN after a second
-- without a message, or EINTR; or another error.
pub data Received : Type 0 where
  parts : Topic → List (List ℕ) → Received
  try_again : Received
  failed : Received

abbrev pub return : Option Error → Subscription → Subscription
return e s = record s { phase = returned e; socket_open = false }

-- The call of SetRcvtimeo before the loop.
unfoldable pub run_start : Bool → ZmqSubscriber → Subscription
run_start timeout_fails z =
    let s : Subscription = record {
      subscriber = z;
      phase = checking;
      pending = [];
      parse_errors = [];
      socket_open = true;
    } in
    if timeout_fails then return (some timeout_failure) s else s

unfoldable pub check_cancel : Subscription → Subscription
check_cancel s = if s.subscriber.cancel then return none s else record s { phase = selecting }

unfoldable pub receive : Received → Subscription → Subscription
receive (parts topic payload) s = record s {
  phase = checking;
  pending = s.pending ++ (topic, payload) ∷ [];
}
receive try_again s = record s { phase = checking }
receive failed s = return (some receive_failure) s

-- The end of a goroutine, with what processMessage has returned.
abbrev pub settle : Result (Unit {0}) → List Error → List Error
settle (ok u) errors = errors
settle (err e) errors = errors ++ e ∷ []
settle panic errors = errors
settle out_of_fuel errors = errors

unfoldable pub process : Btcd → Time → Parts → List Parts → Subscription → Subscription
process b now message rest s =
    let (r, z) = process_message b now message.0 message.1 s.subscriber in
    record s { subscriber = z; pending = rest; parse_errors = settle r s.parse_errors }

abbrev pub IsRunning : Phase → Type 0
IsRunning checking = Unit {0}
IsRunning selecting = Unit {0}
IsRunning receiving = Unit {0}
IsRunning (returned e) = ⊥

-- A step of the goroutine of `Run`. The select takes an error that waits, if there is one.
pub data LoopStep (s : Subscription) : Subscription → Type 0 where
  check : s.phase ≡ checking → LoopStep s (check_cancel s)
  take_error :
      (before after : List Error) (e : Error)
      → s.phase ≡ selecting
      → s.parse_errors ≡ before ++ e ∷ after
      → LoopStep s (return (some e) (record s { parse_errors = before ++ after }))
  default : s.phase ≡ selecting → s.parse_errors ≡ [] → LoopStep s (record s { phase = receiving })
  recv : (m : Received) → s.phase ≡ receiving → LoopStep s (receive m s)

-- A step of another goroutine: one that parses, where that does not end the program by a panic, the
-- caller of `Stop`, or the reader of a channel.
pub data OtherStep (b : Btcd) (s : Subscription) : Subscription → Type 0 where
  parse :
      (now : Time) (before after : List Parts) (m : Parts)
      → s.pending ≡ before ++ m ∷ after
      → (process_message b now m.0 m.1 s.subscriber).0 ≢ panic
      → OtherStep b s (process b now m (before ++ after) s)
  stopped : OtherStep b s (record s { subscriber = stop s.subscriber })
  read_tx :
      (tx : Transaction) (rest : List Transaction)
      → s.subscriber.incoming_tx ≡ tx ∷ rest
      → OtherStep b s (record s { subscriber = record s.subscriber { incoming_tx = rest } })
  read_block :
      (block : Block) (rest : List Block)
      → s.subscriber.incoming_blocks ≡ block ∷ rest
      → OtherStep b s (record s { subscriber = record s.subscriber { incoming_blocks = rest } })

-- A run, with the number of steps that the goroutine of `Run` has made in it.
pub data Runs (b : Btcd) (s : Subscription) : ℕ → Subscription → Type 0 where
  here : Runs b s zero s
  loop : {n : ℕ} {t u : Subscription} → Runs b s n t → LoopStep t u → Runs b s (suc n) u
  other : {n : ℕ} {t u : Subscription} → Runs b s n t → OtherStep b t u → Runs b s n u
