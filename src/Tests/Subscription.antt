-- ===== src/Tests/Subscription.antt =====
-- The theorems on the loop of the subscriber and on the signals of the daemon, at short runs.
use x_b10cslashbademeister.Common.{
  ℕ, ◌≡◌, ◌≢◌, ◌≤◌, refl, true, false, none, some, List, [], ◌∷◌, ◌++◌, arith,
}
use x_b10cslashbademeister.Types.{at_second, Block}
use x_b10cslashbademeister.Types.Height.Padding.{height_bytes, blank}
use x_b10cslashbademeister.Errors.{ok, panic, unknown_topic}
use x_b10cslashbademeister.Wire.{MsgTx, BlockHeader, Btcd, new_block_from_bytes}
use x_b10cslashbademeister.Wire.Blocks.{with_script, new_block-coinbase}
use x_b10cslashbademeister.Zmq.{other_topic, parse_block, process_message, stop}
use x_b10cslashbademeister.Zmq.Subscription.{
  Socket, subscribe, new_zmq_subscriber, Subscription, receiving, run_start, return, check_cancel,
  receive, parts, process, LoopStep, check, take_error, default, recv, parse, Runs, here, loop,
  other, IsRunning,
}
use x_b10cslashbademeister.Zmq.Subscription.Returns.{IsExplained, Run-IsExplained}
use x_b10cslashbademeister.Zmq.Subscription.Stopping.{Runs-Stops}
use x_b10cslashbademeister.Zmq.Subscription.Swapped.{fresh, block_message, Fills, Runs-swapped}
use x_b10cslashbademeister.Daemon.Quit.{
  waiting, ended, resending, Quit, both_loops, QuitSteps, at_first, and_next, stop_sends,
  run_receives,
}
use x_b10cslashbademeister.Daemon.Quit.Stops.{IsStuck, both_loops-Ends, both_loops-Blocks}
use x_b10cslashbademeister.Tests.Scenario.{hash_of}
use x_b10cslashbademeister.Tests.Types.{toy, a_tx, input, is_coinbase, behind_height}

abbrev socket : Socket
socket = record {
  new_socket_fails = false;
  set_subscribe_fails = λ topic. false;
  connect_fails = false;
}

-- The loop receives a message of an unknown topic, the goroutine refuses it, and the loop returns
-- its error.
abbrev received : Subscription
received =
    receive (parts other_topic [])
      (record (check_cancel (run_start false fresh)) { phase = receiving })

abbrev refused : Subscription
refused = check_cancel (process toy (at_second 1) (other_topic, []) [] received)

abbrev failed : Subscription
failed = return (some unknown_topic) (record refused { parse_errors = [] })

unknown-refused : (process_message toy (at_second 1) other_topic [] received.subscriber).0 ≢ panic
unfolding process_message
unknown-refused e = absurd (cc)

refused_run : Runs toy (run_start false fresh) 5 failed
unfolding run_start check_cancel receive process process_message
refused_run =
    loop
      (loop
        (other
          (loop (loop (loop here (check refl)) (default refl refl))
            (recv (parts other_topic []) refl))
          (parse (at_second 1) [] [] (other_topic, []) refl unknown-refused))
        (check refl))
      (take_error [] [] unknown_topic refl refl)

made : new_zmq_subscriber socket ≡ ok fresh
unfolding new_zmq_subscriber subscribe
made = refl

Run-IsExplained_example : IsExplained false false refused_run
Run-IsExplained_example = Run-IsExplained toy false fresh 5 failed refused_run

abbrev stopping : Subscription
stopping = record (run_start false fresh) { subscriber = stop fresh }

stopped_run : Runs toy stopping 1 (check_cancel stopping)
unfolding run_start stop
stopped_run = loop here (check refl)

is_stopping : stopping.subscriber.cancel ≡ true
unfolding stop
is_stopping = refl

Runs-Stops_example :
    (1 ≤ 3)
    × (IsRunning (check_cancel stopping).phase
        → (u : Subscription) × LoopStep (check_cancel stopping) u)
Runs-Stops_example = Runs-Stops toy stopping 1 (check_cancel stopping) is_stopping stopped_run

abbrev header_on : ℕ → BlockHeader
header_on n = record { prev_block = hash_of n; timestamp = at_second 700; body = [] }

-- A toy in place of btcd that decodes payloads of one byte to blocks on top of its hash.
abbrev coinbase : MsgTx
coinbase = with_script (1 ∷ height_bytes 1 3 ++ behind_height) input [] (a_tx 0)

abbrev decoding : Btcd
decoding = record toy {
  decode_block = λ bytes. elim bytes [
    | [] ↦ none
    | n ∷ ns ↦ some (record { header = header_on n; transactions = coinbase ∷ [] })
  ];
}

abbrev block_on : ℕ → Block
block_on n = record {
  hash = hash_of 9;
  parent = hash_of n;
  first_seen = at_second 5;
  height = 3;
  is_best = true;
  tx_ids =
      toy.tx_hash (with_script (1 ∷ height_bytes 1 3 ++ blank 3 behind_height) input [] (a_tx 0))
      ∷ [];
  encoded_time = some (at_second 700);
}

abbrev message_on : ℕ → List (List ℕ)
message_on n = (n ∷ []) ∷ [] ∷ []

parsed : (n : ℕ) → parse_block decoding (at_second 5) (message_on n) ≡ ok (block_on n)
unfolding parse_block new_block_from_bytes is_coinbase
parsed n =
    new_block-coinbase decoding (at_second 5) (header_on n) (a_tx 0) [] input [] 1 3 behind_height
      refl tt (omega arith) (omega arith)

Runs-swapped_example :
    (u : Subscription) × Runs decoding (run_start false fresh) 6 u
    × (u.pending ≡ block_message (message_on 1) ∷ block_message (message_on 2) ∷ [])
    × Fills decoding u (block_on 1 ∷ block_on 2 ∷ [])
    × Fills decoding u (block_on 2 ∷ block_on 1 ∷ [])
Runs-swapped_example =
    Runs-swapped decoding (at_second 5) (message_on 1) (message_on 2) (block_on 1) (block_on 2)
      (parsed 1) (parsed 2)

abbrev after_stop : Quit
after_stop = record { full = false; stops = 0; stats = waiting; run = resending }

one_stop : QuitSteps (both_loops 1) 2 after_stop
one_stop = and_next (and_next at_first (stop_sends 0 refl refl)) (run_receives refl refl)

both_loops-Ends_example :
    (2 ≤ 5) × (IsStuck after_stop → (after_stop.run ≡ ended) × (after_stop.stats ≡ ended))
both_loops-Ends_example = both_loops-Ends 2 after_stop one_stop

both_loops-Blocks_example :
    (s : Quit) × QuitSteps (both_loops 2) 5 s × IsStuck s × (s.run ≡ resending)
both_loops-Blocks_example = both_loops-Blocks 0
