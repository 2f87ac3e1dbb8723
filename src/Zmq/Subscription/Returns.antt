-- ===== src/Zmq/Subscription/Returns.antt =====
-- Why `Run` of the subscriber returns.
use x_b10cslashbademeister.Common.{
  ℕ, ◌≡◌, refl, sym, ◌∙◌, ◌⊎◌, inl, inr, Bool, Bool-cases, true, false, Option, none, some, List,
  [], ◌∷◌, ◌++◌, In, In-append_left, In-append_right, In-append_cases, arith,
}
use x_b10cslashbademeister.Errors.{
  Result, ok, err, panic, out_of_fuel, Error, timeout_failure, receive_failure,
}
use x_b10cslashbademeister.Types.{Time, Transaction, Block}
use x_b10cslashbademeister.Wire.{Btcd}
use x_b10cslashbademeister.Zmq.{
  Topic, topic_raw_tx_with_fee, topic_raw_block, other_topic, ZmqSubscriber, process_message, stop,
  send_tx, send_block, parse_transaction, parse_block,
}
use x_b10cslashbademeister.Zmq.Subscription.{
  IsRunning, returned, Subscription, run_start, check_cancel, receive, parts, try_again, failed,
  settle, process, LoopStep, check, take_error, default, recv, OtherStep, parse, stopped, read_tx,
  read_block, Runs, here, loop, other,
}

-- In a run, a goroutine has processed a message and processMessage has refused it with the error.
abbrev pub Refuses :
    {b : Btcd} {s : Subscription} {n : ℕ} {t : Subscription} → Runs b s n t → Error → Type 0
Refuses here e = ⊥
Refuses (loop runs step) e = Refuses runs e
Refuses {b} (other {n} {t} runs (parse now before after m q r)) e =
    Refuses runs e ⊎ ((process_message b now m.0 m.1 t.subscriber).0 ≡ err e)
Refuses (other runs stopped) e = Refuses runs e
Refuses (other runs (read_tx tx rest q)) e = Refuses runs e
Refuses (other runs (read_block block rest q)) e = Refuses runs e

-- In a run, a receive has failed otherwise than by its timeout or an interrupt.
abbrev pub ReceiveFails :
    {b : Btcd} {s : Subscription} {n : ℕ} {t : Subscription} → Runs b s n t → Type 0
ReceiveFails here = ⊥
ReceiveFails (loop runs (check p)) = ReceiveFails runs
ReceiveFails (loop runs (take_error before after e p q)) = ReceiveFails runs
ReceiveFails (loop runs (default p q)) = ReceiveFails runs
ReceiveFails (loop runs (recv (parts topic payload) p)) = ReceiveFails runs
ReceiveFails (loop runs (recv try_again p)) = ReceiveFails runs
ReceiveFails (loop runs (recv failed p)) = Unit {0}
ReceiveFails (other runs step) = ReceiveFails runs

-- In a run, `Stop` has been called.
abbrev pub IsStopped :
    {b : Btcd} {s : Subscription} {n : ℕ} {t : Subscription} → Runs b s n t → Type 0
IsStopped here = ⊥
IsStopped (loop runs step) = IsStopped runs
IsStopped (other runs (parse now before after m q r)) = IsStopped runs
IsStopped (other runs stopped) = Unit {0}
IsStopped (other runs (read_tx tx rest q)) = IsStopped runs
IsStopped (other runs (read_block block rest q)) = IsStopped runs

-- What a run says of the subscription that it has led to, for Run of a subscriber whose flag was
-- `cancelled` at the call.
pub record IsExplained (timeout_fails cancelled : Bool) {b : Btcd} {s : Subscription} {n : ℕ}
    {t : Subscription} (runs : Runs b s n t) : Type 0 where
  pub waiting : (e : Error) → In e t.parse_errors → Refuses runs e
  pub cancels : t.subscriber.cancel ≡ true → (cancelled ≡ true) ⊎ IsStopped runs
  pub stopped : t.phase ≡ returned none → (cancelled ≡ true) ⊎ IsStopped runs
  pub failed :
      (e : Error)
      → t.phase ≡ returned (some e)
      → ((timeout_fails ≡ true) × (e ≡ timeout_failure))
        ⊎ (ReceiveFails runs × (e ≡ receive_failure))
        ⊎ Refuses runs e
  pub closed : (o : Option Error) → t.phase ≡ returned o → t.socket_open ≡ false
  pub usable : IsRunning t.phase → t.socket_open ≡ true

send_tx-cancel : (r : Result Transaction) (z : ZmqSubscriber) → (send_tx r z).1.cancel ≡ z.cancel
unfolding send_tx
send_tx-cancel (ok tx) z = ground arith
send_tx-cancel (err e) z = refl
send_tx-cancel panic z = refl
send_tx-cancel out_of_fuel z = refl

send_block-cancel : (r : Result Block) (z : ZmqSubscriber) → (send_block r z).1.cancel ≡ z.cancel
unfolding send_block
send_block-cancel (ok block) z = ground arith
send_block-cancel (err e) z = refl
send_block-cancel panic z = refl
send_block-cancel out_of_fuel z = refl

pub process_message-cancel :
    (b : Btcd) (now : Time) (t : Topic) (payload : List (List ℕ)) (z : ZmqSubscriber)
    → (process_message b now t payload z).1.cancel ≡ z.cancel
unfolding process_message
process_message-cancel b now topic_raw_tx_with_fee payload z =
    send_tx-cancel (parse_transaction b now payload) z
process_message-cancel b now topic_raw_block payload z =
    send_block-cancel (parse_block b now payload) z
process_message-cancel b now other_topic payload z = refl

settle-In :
    (r : Result (Unit {0})) (errors : List Error) (e : Error)
    → In e (settle r errors)
    → In e errors ⊎ (r ≡ err e)
settle-In (ok u) errors e i = inl i
settle-In (err e') errors e i = elim (In-append_cases e errors (e' ∷ []) i) [
  | inl j ↦ inl j
  | inr (inl q) ↦ inr (rw q refl)
  | inr (inr j) ↦ elim j [ ]
]
settle-In panic errors e i = inl i
settle-In out_of_fuel errors e i = inl i

In-rest :
    (e e' : Error) (before after : List Error)
    → In e (before ++ after)
    → In e (before ++ e' ∷ after)
In-rest e e' before after i = elim (In-append_cases e before after i) [
  | inl j ↦ In-append_left e before (e' ∷ after) j
  | inr j ↦ In-append_right e before (e' ∷ after) (inr j)
]

module _ (timeout_fails cancelled : Bool) (b : Btcd) (s : Subscription) where
  loop-IsExplained :
      (n : ℕ) (t u : Subscription) (runs : Runs b s n t) (step : LoopStep t u)
      → IsExplained timeout_fails cancelled runs
      → IsExplained timeout_fails cancelled (loop runs step)
  unfolding check_cancel receive
  loop-IsExplained n t u runs (check p) x = elim (Bool-cases t.subscriber.cancel) [
    | inl c ↦ record {
      waiting = rw c x.waiting;
      cancels = λ q. x.cancels c;
      stopped = λ q. x.cancels c;
      failed = rw c (λ e q. absurd (cc));
      closed = rw c (λ o q. refl);
      usable = rw c (λ u. absurd u);
    }
    | inr c ↦ record {
      waiting = rw c x.waiting;
      cancels = rw c (λ q. absurd (cc));
      stopped = rw c (λ q. absurd (cc));
      failed = rw c (λ e q. absurd (cc));
      closed = rw c (λ o q. absurd (cc));
      usable = rw c (λ u. x.usable (rw p tt));
    }
  ]
  loop-IsExplained n t u runs (take_error before after e p q) x = record {
    waiting = λ e' i. x.waiting e' (rw q (In-rest e' e before after i));
    cancels = x.cancels;
    stopped = λ r. absurd (cc);
    failed = λ e' r.
        let same : e' ≡ e = ground (arith, r) in
        inr (inr (rw same (x.waiting e (rw q (In-append_right e before (e ∷ after) (inl refl))))));
    closed = λ o r. refl;
    usable = λ u. absurd u;
  }
  loop-IsExplained n t u runs (default p q) x = record {
    waiting = x.waiting;
    cancels = x.cancels;
    stopped = λ r. absurd (cc);
    failed = λ e r. absurd (cc);
    closed = λ o r. absurd (cc);
    usable = λ u. x.usable (rw p tt);
  }
  loop-IsExplained n t u runs (recv (parts topic payload) p) x = record {
    waiting = x.waiting;
    cancels = x.cancels;
    stopped = λ r. absurd (cc);
    failed = λ e r. absurd (cc);
    closed = λ o r. absurd (cc);
    usable = λ u. x.usable (rw p tt);
  }
  loop-IsExplained n t u runs (recv try_again p) x = record {
    waiting = x.waiting;
    cancels = x.cancels;
    stopped = λ r. absurd (cc);
    failed = λ e r. absurd (cc);
    closed = λ o r. absurd (cc);
    usable = λ u. x.usable (rw p tt);
  }
  loop-IsExplained n t u runs (recv failed p) x = record {
    waiting = x.waiting;
    cancels = x.cancels;
    stopped = λ r. absurd (cc);
    failed = λ e r. inr (inl (tt, ground (arith, r)));
    closed = λ o r. refl;
    usable = λ u. absurd u;
  }

  other-IsExplained :
      (n : ℕ) (t u : Subscription) (runs : Runs b s n t) (step : OtherStep b t u)
      → IsExplained timeout_fails cancelled runs
      → IsExplained timeout_fails cancelled (other runs step)
  unfolding process stop
  other-IsExplained n t u runs (parse now before after m q r) x = record {
    waiting = λ e i.
        elim (settle-In (process_message b now m.0 m.1 t.subscriber).0 t.parse_errors e i) [
          | inl j ↦ inl (x.waiting e j)
          | inr f ↦ inr f
        ];
    cancels = λ f. x.cancels (sym (process_message-cancel b now m.0 m.1 t.subscriber) ∙ f);
    stopped = x.stopped;
    failed = λ e f. elim (x.failed e f) [
      | inl g ↦ inl g
      | inr (inl g) ↦ inr (inl g)
      | inr (inr g) ↦ inr (inr (inl g))
    ];
    closed = x.closed;
    usable = x.usable;
  }
  other-IsExplained n t u runs stopped x = record {
    waiting = x.waiting;
    cancels = λ f. inr tt;
    stopped = λ f. inr tt;
    failed = x.failed;
    closed = x.closed;
    usable = x.usable;
  }
  other-IsExplained n t u runs (read_tx tx rest e) x = record {
    waiting = x.waiting;
    cancels = x.cancels;
    stopped = x.stopped;
    failed = x.failed;
    closed = x.closed;
    usable = x.usable;
  }
  other-IsExplained n t u runs (read_block block rest e) x = record {
    waiting = x.waiting;
    cancels = x.cancels;
    stopped = x.stopped;
    failed = x.failed;
    closed = x.closed;
    usable = x.usable;
  }

  Runs-IsExplained :
      (n : ℕ) (t : Subscription) (runs : Runs b s n t)
      → IsExplained timeout_fails cancelled {b = b} {s = s} here
      → IsExplained timeout_fails cancelled runs
  Runs-IsExplained n t here x = x
  Runs-IsExplained m u (loop {n} {t} runs step) x =
      loop-IsExplained n t u runs step (Runs-IsExplained n t runs x)
  Runs-IsExplained m u (other {n} {t} runs step) x =
      other-IsExplained n t u runs step (Runs-IsExplained n t runs x)

run_start-IsExplained :
    (b : Btcd) (timeout_fails : Bool) (z : ZmqSubscriber)
    → IsExplained timeout_fails z.cancel {b = b} {s = run_start timeout_fails z} here
unfolding run_start
run_start-IsExplained b true z = record {
  waiting = λ e i. elim i [ ];
  cancels = λ f. inl f;
  stopped = λ f. absurd (cc);
  failed = λ e f. inl (refl, ground (arith, f));
  closed = λ o f. refl;
  usable = λ u. absurd u;
}
run_start-IsExplained b false z = record {
  waiting = λ e i. elim i [ ];
  cancels = λ f. inl f;
  stopped = λ f. absurd (cc);
  failed = λ e f. absurd (cc);
  closed = λ o f. absurd (cc);
  usable = λ u. refl;
}

-- In every order of the steps: Run returns nil only where Stop was called, before Run or in it, and
-- an error only where it is that of the receive timeout, which could not be set, that of a receive
-- that has failed in the run, or one with which processMessage has refused a message in the run. The
-- socket is open until Run returns, and closed then.
pub Run-IsExplained :
    (b : Btcd) (timeout_fails : Bool) (z : ZmqSubscriber) (n : ℕ) (t : Subscription)
    → (runs : Runs b (run_start timeout_fails z) n t) → IsExplained timeout_fails z.cancel runs
Run-IsExplained b timeout_fails z n t runs =
    Runs-IsExplained timeout_fails z.cancel b (run_start timeout_fails z) n t runs
      (run_start-IsExplained b timeout_fails z)
