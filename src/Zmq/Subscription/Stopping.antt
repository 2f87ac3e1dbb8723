-- ===== src/Zmq/Subscription/Stopping.antt =====
-- `Stop` of the subscriber ends its `Run`.
use x_b10cslashbademeister.Common.{
  ℕ, suc, ◌+◌, ◌≤◌, ◌≡◌, refl, ◌∙◌, ◌⊎◌, inl, inr, true, Option, some, List, [], ◌∷◌, ◌++◌, arith,
}
use x_b10cslashbademeister.Errors.{Error}
use x_b10cslashbademeister.Wire.{Btcd}
use x_b10cslashbademeister.Zmq.{stop}
use x_b10cslashbademeister.Zmq.Subscription.Returns.{process_message-cancel}
use x_b10cslashbademeister.Zmq.Subscription.{
  Phase, IsRunning, checking, selecting, receiving, returned, Subscription, check_cancel, receive,
  parts, try_again, failed, return, process, LoopStep, check, take_error, default, recv, OtherStep,
  parse, stopped, read_tx, read_block, Runs, here, loop, other,
}

-- The steps that the goroutine of `Run` can still make once the flag is set.
abbrev pub steps_left : Phase → ℕ
steps_left checking = 1
steps_left selecting = 3
steps_left receiving = 2
steps_left (returned e) = 0

LoopStep-steps_left :
    (s t : Subscription)
    → LoopStep s t
    → s.subscriber.cancel ≡ true
    → (t.subscriber.cancel ≡ true) × (suc (steps_left t.phase) ≤ steps_left s.phase)
unfolding check_cancel receive
LoopStep-steps_left s t (check p) c = ground (arith, p, c)
LoopStep-steps_left s t (take_error before after e p q) c = (c, rw p (omega arith))
LoopStep-steps_left s t (default p q) c = (c, rw p (omega arith))
LoopStep-steps_left s t (recv (parts topic payload) p) c = (c, rw p (omega arith))
LoopStep-steps_left s t (recv try_again p) c = (c, rw p (omega arith))
LoopStep-steps_left s t (recv failed p) c = (c, rw p (omega arith))

OtherStep-phase :
    (b : Btcd) (s t : Subscription)
    → OtherStep b s t
    → s.subscriber.cancel ≡ true
    → (t.subscriber.cancel ≡ true) × (t.phase ≡ s.phase)
unfolding process stop
OtherStep-phase b s t (parse now before after m q r) c =
    (process_message-cancel b now m.0 m.1 s.subscriber ∙ c, refl)
OtherStep-phase b s t stopped c = (refl, refl)
OtherStep-phase b s t (read_tx tx rest e) c = (c, refl)
OtherStep-phase b s t (read_block block rest e) c = (c, refl)

Runs-steps_left :
    (b : Btcd) (s v : Subscription) (m : ℕ)
    → Runs b s m v
    → s.subscriber.cancel ≡ true
    → (v.subscriber.cancel ≡ true) × (m + steps_left v.phase ≤ steps_left s.phase)
Runs-steps_left b s v m here c = (c, omega arith)
Runs-steps_left b s v m (loop {n} {t} runs step) c =
    let before = Runs-steps_left b s t n runs c in
    let after = LoopStep-steps_left t v step before.0 in (after.0, omega arith)
Runs-steps_left b s v m (other {n} {t} runs step) c =
    let before = Runs-steps_left b s t n runs c in
    let after = OtherStep-phase b t v step before.0 in (after.0, rw after.1 before.1)

steps_left-bound : (p : Phase) → steps_left p ≤ 3
steps_left-bound checking = omega arith
steps_left-bound selecting = omega arith
steps_left-bound receiving = omega arith
steps_left-bound (returned e) = omega arith

-- A subscription that has not returned and whose receive times out at the latest can go on.
LoopStep-exists : (s : Subscription) → IsRunning s.phase → (t : Subscription) × LoopStep s t
LoopStep-exists s running = elim (phase-cases s.phase) [
  | inl p ↦ (check_cancel s, check p)
  | inr (inl p) ↦ elim (errors-cases s.parse_errors) [
    | inl q ↦ (record s { phase = receiving }, default p q)
    | inr (e, rest, q) ↦
        (return (some e) (record s { parse_errors = [] ++ rest }), take_error [] rest e p q)
  ]
  | inr (inr (inl p)) ↦ (receive try_again s, recv try_again p)
  | inr (inr (inr (e, p))) ↦ absurd (rw p at running)
]
  where
    phase-cases :
        (p : Phase)
        → (p ≡ checking)
          ⊎ (p ≡ selecting)
          ⊎ (p ≡ receiving)
          ⊎ ((e : Option Error) × (p ≡ returned e))
    phase-cases checking = inl refl
    phase-cases selecting = inr (inl refl)
    phase-cases receiving = inr (inr (inl refl))
    phase-cases (returned e) = inr (inr (inr (e, refl)))

    errors-cases :
        (l : List Error) → (l ≡ []) ⊎ ((e : Error) × (rest : List Error) × (l ≡ e ∷ rest))
    errors-cases [] = inl refl
    errors-cases (e ∷ rest) = inr (e, rest, refl)

-- Once the flag that Stop sets is set, and whatever the other goroutines do: the goroutine of Run
-- makes at most three more steps, and until Run has returned there is a step that it can make,
-- where a receive ends after a second at the latest.
pub Runs-Stops :
    (b : Btcd) (s : Subscription) (n : ℕ) (t : Subscription)
    → s.subscriber.cancel ≡ true
    → Runs b s n t
    → (n ≤ 3) × (IsRunning t.phase → (u : Subscription) × LoopStep t u)
Runs-Stops b s n t c runs =
    let left = Runs-steps_left b s t n runs c in
    (omega (arith, steps_left-bound s.phase), LoopStep-exists t)
