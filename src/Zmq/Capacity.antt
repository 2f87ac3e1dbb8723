-- ===== src/Zmq/Capacity.antt =====
-- The channels of the subscriber after a sequence of messages that nobody reads.
use mathlib.Core.List.{append_assoc, append-nil}
use x_b10cslashbademeister.Common.{
  ℕ, zero, suc, ◌≤◌, ◌≡◌, refl, sym, ap, ◌∙◌, ◌⊎◌, inl, inr, Bool-cases, List, [], ◌∷◌, ◌++◌,
  length, length-append, take, ltb, arith,
}
use x_b10cslashbademeister.Types.{Time, Block, Transaction}
use x_b10cslashbademeister.Errors.{Result, ok, err, panic, out_of_fuel}
use x_b10cslashbademeister.Wire.{Btcd}
use x_b10cslashbademeister.Zmq.{
  Topic, topic_raw_tx_with_fee, topic_raw_block, other_topic, channel_size_tx, channel_size_block,
  ZmqSubscriber, parse_transaction, parse_block, send_tx, send_block, process_message,
}

-- A message, with the time at which it is processed.
pub record Message : Type 0 where
  pub now : Time
  pub topic : Topic
  pub payload : List (List ℕ)

abbrev pub kept : {A : Type 0} → Result A → List A → List A
kept (ok a) rest = a ∷ rest
kept (err e) rest = rest
kept panic rest = rest
kept out_of_fuel rest = rest

module _ (b : Btcd) where
  -- The messages one after the other, whatever each of them ends in.
  unfoldable pub process_messages : List Message → ZmqSubscriber → ZmqSubscriber
  process_messages [] z = z
  process_messages (m ∷ ms) z = process_messages ms (process_message b m.now m.topic m.payload z).1

  -- What the messages parse to, in their order.
  unfoldable pub parsed_txs : List Message → List Transaction
  parsed_txs [] = []
  parsed_txs (m ∷ ms) =
      let rest = parsed_txs ms in
      elim m.topic [
        | topic_raw_tx_with_fee ↦ kept (parse_transaction b m.now m.payload) rest
        | topic_raw_block ↦ rest
        | other_topic ↦ rest
      ]

  unfoldable pub parsed_blocks : List Message → List Block
  parsed_blocks [] = []
  parsed_blocks (m ∷ ms) =
      let rest = parsed_blocks ms in
      elim m.topic [
        | topic_raw_tx_with_fee ↦ rest
        | topic_raw_block ↦ kept (parse_block b m.now m.payload) rest
        | other_topic ↦ rest
      ]

take-full : {A : Type 0} (n : ℕ) (xs ys : List A) → length xs ≡ n → take n (xs ++ ys) ≡ xs
take-full zero [] ys e = refl
take-full zero (x ∷ xs) ys e = absurd (omega arith)
take-full (suc n) [] ys e = absurd (omega arith)
take-full (suc n) (x ∷ xs) ys e = ap (λ l. x ∷ l) (take-full n xs ys (omega arith))

take-within : {A : Type 0} (n : ℕ) (xs : List A) → length xs ≤ n → take n xs ≡ xs
take-within zero [] e = refl
take-within zero (x ∷ xs) e = absurd (omega arith)
take-within (suc n) [] e = refl
take-within (suc n) (x ∷ xs) e = ap (λ l. x ∷ l) (take-within n xs (omega arith))

-- The two channels hold `n` entries at most.
pub record IsWithin (z : ZmqSubscriber) : Type 0 where
  pub txs : length z.incoming_tx ≤ 256
  pub blocks : length z.incoming_blocks ≤ 256

-- A send on a channel keeps the first 256 of the entries there and to come.
abbrev Sends : {A : Type 0} → List A → Result A → List A → Type 0
Sends {A} before r after =
    (length after ≤ 256)
    × ((rest : List A) → take 256 (after ++ rest) ≡ take 256 (before ++ kept r rest))

send_tx-Sends :
    (r : Result Transaction) (z : ZmqSubscriber)
    → IsWithin z
    → Sends z.incoming_tx r (send_tx r z).1.incoming_tx
      × ((send_tx r z).1.incoming_blocks ≡ z.incoming_blocks)
unfolding send_tx
send_tx-Sends (ok tx) z w = elim (Bool-cases (ltb (length z.incoming_tx) channel_size_tx)) [
  | inl e ↦
      rw e (
        (ground (arith, length-append z.incoming_tx (tx ∷ [])), λ rest. rw append_assoc refl),
        refl,
      )
  | inr e ↦ rw e (
    (
      w.txs,
      λ rest.
          let full : length z.incoming_tx ≡ 256 = ground (arith, w.txs) in
          take-full 256 z.incoming_tx rest full
          ∙ sym (take-full 256 z.incoming_tx (tx ∷ rest) full),
    ),
    refl,
  )
]
send_tx-Sends (err e) z w = ((w.txs, λ rest. refl), refl)
send_tx-Sends panic z w = ((w.txs, λ rest. refl), refl)
send_tx-Sends out_of_fuel z w = ((w.txs, λ rest. refl), refl)

send_block-Sends :
    (r : Result Block) (z : ZmqSubscriber)
    → IsWithin z
    → Sends z.incoming_blocks r (send_block r z).1.incoming_blocks
      × ((send_block r z).1.incoming_tx ≡ z.incoming_tx)
unfolding send_block
send_block-Sends (ok block) z w =
    elim (Bool-cases (ltb (length z.incoming_blocks) channel_size_block)) [
      | inl e ↦ rw e (
        (
          ground (arith, length-append z.incoming_blocks (block ∷ [])),
          λ rest. rw append_assoc refl,
        ),
        refl,
      )
      | inr e ↦ rw e (
        (
          w.blocks,
          λ rest.
              let full : length z.incoming_blocks ≡ 256 = ground (arith, w.blocks) in
              take-full 256 z.incoming_blocks rest full
              ∙ sym (take-full 256 z.incoming_blocks (block ∷ rest) full),
        ),
        refl,
      )
    ]
send_block-Sends (err e) z w = ((w.blocks, λ rest. refl), refl)
send_block-Sends panic z w = ((w.blocks, λ rest. refl), refl)
send_block-Sends out_of_fuel z w = ((w.blocks, λ rest. refl), refl)

pub process_message-IsWithin :
    (b : Btcd) (now : Time) (t : Topic) (payload : List (List ℕ)) (z : ZmqSubscriber)
    → IsWithin z
    → IsWithin (process_message b now t payload z).1
unfolding process_message
process_message-IsWithin b now topic_raw_tx_with_fee payload z w =
    let s = send_tx-Sends (parse_transaction b now payload) z w in
    record { txs = s.0.0; blocks = rw s.1 w.blocks }
process_message-IsWithin b now topic_raw_block payload z w =
    let s = send_block-Sends (parse_block b now payload) z w in
    record { txs = rw s.1 w.txs; blocks = s.0.0 }
process_message-IsWithin b now other_topic payload z w = w

-- Each channel holds the first 256 of what was in it and what the messages parse to, in order: a
-- message that does not parse adds nothing, and neither does one that finds its channel full.
pub process_messages-take :
    (b : Btcd) (ms : List Message) (z : ZmqSubscriber)
    → IsWithin z
    → ((process_messages b ms z).incoming_tx ≡ take 256 (z.incoming_tx ++ parsed_txs b ms))
      × ((process_messages b ms z).incoming_blocks
          ≡ take 256 (z.incoming_blocks ++ parsed_blocks b ms))
unfolding process_messages process_message parsed_txs parsed_blocks
process_messages-take b [] z w = (
  sym (ap (take 256) (append-nil z.incoming_tx) ∙ take-within 256 z.incoming_tx w.txs),
  sym (ap (take 256) (append-nil z.incoming_blocks) ∙ take-within 256 z.incoming_blocks w.blocks),
)
process_messages-take b (m ∷ ms) z w = elim (topic-cases m.topic) [
  | inl e ↦ rw e (
      let s = send_tx-Sends (parse_transaction b m.now m.payload) z w in
      let rec =
        process_messages-take b ms (send_tx (parse_transaction b m.now m.payload) z).1
          (record { txs = s.0.0; blocks = rw s.1 w.blocks }) in
      (rec.0 ∙ s.0.1 (parsed_txs b ms), rec.1 ∙ rw s.1 refl))
  | inr (inl e) ↦ rw e (
      let s = send_block-Sends (parse_block b m.now m.payload) z w in
      let rec =
        process_messages-take b ms (send_block (parse_block b m.now m.payload) z).1
          (record { txs = rw s.1 w.txs; blocks = s.0.0 }) in
      (rec.0 ∙ rw s.1 refl, rec.1 ∙ s.0.1 (parsed_blocks b ms)))
  | inr (inr e) ↦ rw e (process_messages-take b ms z w)
]
  where
    topic-cases :
        (t : Topic) → (t ≡ topic_raw_tx_with_fee) ⊎ (t ≡ topic_raw_block) ⊎ (t ≡ other_topic)
    topic-cases topic_raw_tx_with_fee = inl refl
    topic-cases topic_raw_block = inr (inl refl)
    topic-cases other_topic = inr (inr refl)
