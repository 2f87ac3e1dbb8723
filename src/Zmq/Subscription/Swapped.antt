-- ===== src/Zmq/Subscription/Swapped.antt =====
-- The order in which blocks get to the channel.
use x_b10cslashbademeister.Common.{
  ℕ, suc, ◌≡◌, refl, true, false, List, [], ◌∷◌, ◌++◌, ◌<◌, ap, length, arith,
}
use x_b10cslashbademeister.Types.{Time, Block}
use x_b10cslashbademeister.Errors.{ok}
use x_b10cslashbademeister.Wire.{Btcd}
use x_b10cslashbademeister.Zmq.{
  ZmqSubscriber, topic_raw_block, parse_block, send_block, process_message,
}
use x_b10cslashbademeister.Zmq.Subscription.{
  checking, selecting, Parts, Subscription, run_start, check_cancel, receive, parts, process, check,
  default, recv, OtherStep, parse, Runs, here, loop, other,
}

abbrev pub block_message : List (List ℕ) → Parts
block_message payload = (topic_raw_block, payload)

abbrev pub fresh : ZmqSubscriber
fresh = record { incoming_tx = []; incoming_blocks = []; cancel = false }

abbrev selecting_with : List Parts → Subscription
selecting_with pending = record {
  subscriber = fresh;
  phase = selecting;
  pending = pending;
  parse_errors = [];
  socket_open = true;
}

one_round :
    (b : Btcd) (n : ℕ) (s : Subscription) (pending : List Parts) (payload : List (List ℕ))
    → Runs b s n (record (selecting_with pending) { phase = checking })
    → Runs b s
        (suc (suc (suc n)))
        (record (selecting_with (pending ++ block_message payload ∷ [])) { phase = checking })
unfolding check_cancel receive
one_round b n s pending payload runs =
    loop (loop (loop runs (check refl)) (default refl refl))
      (recv (parts topic_raw_block payload) refl)

-- Some run of the other goroutines, in which the loop does nothing, fills the channel like this.
abbrev pub Fills : Btcd → Subscription → List Block → Type 0
Fills b u blocks = (v : Subscription) × Runs b u 0 v × (v.subscriber.incoming_blocks ≡ blocks)

sent :
    (b : Btcd) (now : Time) (payload : List (List ℕ)) (block : Block) (z : ZmqSubscriber)
    → parse_block b now payload ≡ ok block
    → length z.incoming_blocks < 256
    → process_message b now topic_raw_block payload z
      ≡ (ok tt, record z { incoming_blocks = z.incoming_blocks ++ block ∷ [] })
unfolding process_message send_block
sent b now payload block z e room = ground (arith, e, room)

-- Two messages, received in this order, whose goroutines run one after the other.
fill_two :
    (b : Btcd) (now : Time) (u : Subscription) (first second : List (List ℕ)) (k l : Block)
    → (before after : List Parts) → u.subscriber ≡ fresh
    → parse_block b now first ≡ ok k
    → parse_block b now second ≡ ok l
    → u.pending ≡ before ++ block_message first ∷ after
    → before ++ after ≡ block_message second ∷ []
    → Fills b u (k ∷ l ∷ [])
unfolding process
fill_two b now u first second k l before after start p q there rest =
    let one : process_message b now topic_raw_block first u.subscriber
        ≡ (ok tt, record fresh { incoming_blocks = k ∷ [] }) =
      rw start (sent b now first k fresh p (omega arith)) in
    let two : process_message b now topic_raw_block second
          (record fresh { incoming_blocks = k ∷ [] })
        ≡ (ok tt, record fresh { incoming_blocks = k ∷ l ∷ [] }) =
      sent b now second l (record fresh { incoming_blocks = k ∷ [] }) q (omega arith) in
    let u' : Subscription = process b now (block_message first) (before ++ after) u in
    let step : OtherStep b u u' =
      parse now before after (block_message first) there (rw one (λ f. absurd (cc))) in
    let at : u'.subscriber ≡ record fresh { incoming_blocks = k ∷ [] } = ap (λ r. r.1) one in
    let step' : OtherStep b u' (process b now (block_message second) [] u') =
      parse now [] [] (block_message second) rest (rw (at, two) (λ f. absurd (cc))) in
    (
      process b now (block_message second) [] u',
      other (other here step) step',
      rw at (ap (λ r. r.1.incoming_blocks) two),
    )

-- A subscriber that has received the messages of two blocks, in the order in which the node has
-- sent them, may write the blocks to the channel in this order, and in the other one.
pub Runs-swapped :
    (b : Btcd) (now : Time) (first second : List (List ℕ)) (k l : Block)
    → parse_block b now first ≡ ok k
    → parse_block b now second ≡ ok l
    → (u : Subscription) × Runs b (run_start false fresh) 6 u
      × (u.pending ≡ block_message first ∷ block_message second ∷ [])
      × Fills b u (k ∷ l ∷ [])
      × Fills b u (l ∷ k ∷ [])
unfolding run_start
Runs-swapped b now first second k l p q =
    let u : Subscription =
      record (selecting_with (block_message first ∷ block_message second ∷ [])) {
        phase = checking;
      } in
    (
      u,
      one_round b 3 (run_start false fresh) (block_message first ∷ []) second
          (one_round b 0 (run_start false fresh) [] first here),
      refl,
      fill_two b now u first second k l [] (block_message second ∷ []) refl p q refl refl,
      fill_two b now u second first l k (block_message first ∷ []) [] refl q p refl refl,
    )
