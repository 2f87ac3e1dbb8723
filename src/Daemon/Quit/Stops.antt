-- ===== src/Daemon/Quit/Stops.antt =====
-- One call of `Stop` ends both loops; two calls need not.
use x_b10cslashbademeister.Common.{
  ℕ, zero, suc, ◌+◌, ◌≤◌, ◌≡◌, refl, ◌⊎◌, inl, inr, Bool, Bool-cases, true, false, arith,
}
use x_b10cslashbademeister.Daemon.Quit.{
  Loop, waiting, resending, ended, Quit, QuitStep, stop_sends, stats_receives, stats_resends,
  run_receives, run_resends, QuitSteps, at_first, and_next, both_loops,
}

-- The signals that a loop holds, and the steps that it still makes.
abbrev held : Loop → ℕ
held waiting = 0
held resending = 1
held ended = 0

abbrev left : Loop → ℕ
left waiting = 2
left resending = 1
left ended = 0

abbrev in_channel : Bool → ℕ
in_channel true = 1
in_channel false = 0

signals : Quit → ℕ
signals q = in_channel q.full + q.stops + held q.stats + held q.run

steps_left : Quit → ℕ
steps_left q = q.stops + left q.stats + left q.run

QuitStep-signals :
    (q r : Quit) → QuitStep q r → (signals r ≡ signals q) × (steps_left q ≡ suc (steps_left r))
unfolding signals steps_left
QuitStep-signals q r (stop_sends n e f) = ground (arith, e, f)
QuitStep-signals q r (stats_receives e f) = ground (arith, e, f)
QuitStep-signals q r (stats_resends e f) = ground (arith, e, f)
QuitStep-signals q r (run_receives e f) = ground (arith, e, f)
QuitStep-signals q r (run_resends e f) = ground (arith, e, f)

QuitSteps-signals :
    (q s : Quit) (n : ℕ)
    → QuitSteps q n s
    → (signals s ≡ signals q) × (n + steps_left s ≡ steps_left q)
QuitSteps-signals q s n at_first = (refl, omega arith)
QuitSteps-signals q s n (and_next {n = m} {r = r} steps step) =
    ground (arith, QuitSteps-signals q r m steps, QuitStep-signals r s step)

Loop-cases : (l : Loop) → (l ≡ waiting) ⊎ (l ≡ resending) ⊎ (l ≡ ended)
Loop-cases waiting = inl refl
Loop-cases resending = inr (inl refl)
Loop-cases ended = inr (inr refl)

ℕ-cases : (n : ℕ) → (n ≡ 0) ⊎ ((m : ℕ) × (n ≡ suc m))
ℕ-cases zero = inl refl
ℕ-cases (suc m) = inr (m, refl)

-- A state in which nothing can go on.
abbrev pub IsStuck : Quit → Type 0
IsStuck s = (t : Quit) → QuitStep s t → ⊥

stuck-ended : (s : Quit) → signals s ≡ 1 → IsStuck s → (s.run ≡ ended) × (s.stats ≡ ended)
unfolding signals
stuck-ended s one stuck = elim (Bool-cases s.full) [
  | inl full ↦ (
    elim (Loop-cases s.run) [
      | inl w ↦ absurd (stuck _ (run_receives full w))
      | inr (inl r) ↦ absurd (ground (arith, one, full, r))
      | inr (inr e) ↦ e
    ],
    elim (Loop-cases s.stats) [
      | inl w ↦ absurd (stuck _ (stats_receives full w))
      | inr (inl r) ↦ absurd (ground (arith, one, full, r))
      | inr (inr e) ↦ e
    ],
  )
  | inr empty ↦ absurd (elim (ℕ-cases s.stops) [
    | inr (n, e) ↦ stuck _ (stop_sends n empty e)
    | inl none_left ↦ elim (Loop-cases s.run) [
      | inr (inl r) ↦ stuck _ (run_resends empty r)
      | inl w ↦ elim (Loop-cases s.stats) [
        | inr (inl r) ↦ stuck _ (stats_resends empty r)
        | inl v ↦ ground (arith, one, empty, none_left, w, v)
        | inr (inr v) ↦ ground (arith, one, empty, none_left, w, v)
      ]
      | inr (inr w) ↦ elim (Loop-cases s.stats) [
        | inr (inl r) ↦ stuck _ (stats_resends empty r)
        | inl v ↦ ground (arith, one, empty, none_left, w, v)
        | inr (inr v) ↦ ground (arith, one, empty, none_left, w, v)
      ]
    ]
  ])
]

-- Where Stop is called once, and neither loop returns for another reason: five steps end every
-- run, whatever their order, and where nothing can go on both loops have returned.
pub both_loops-Ends :
    (n : ℕ) (s : Quit)
    → QuitSteps (both_loops 1) n s
    → (n ≤ 5) × (IsStuck s → (s.run ≡ ended) × (s.stats ≡ ended))
both_loops-Ends n s steps =
    let kept = QuitSteps-signals (both_loops 1) s n steps in
    (unfold steps_left in omega (arith, kept.1), stuck-ended s (unfold signals in kept.0))

abbrev blocked : ℕ → Quit
blocked k = record { full = true; stops = k; stats = ended; run = resending }

blocked-IsStuck : (k : ℕ) → IsStuck (blocked k)
blocked-IsStuck k t (stop_sends n e f) = absurd (cc)
blocked-IsStuck k t (stats_receives e f) = absurd (cc)
blocked-IsStuck k t (stats_resends e f) = absurd (cc)
blocked-IsStuck k t (run_receives e f) = absurd (cc)
blocked-IsStuck k t (run_resends e f) = absurd (cc)

-- Where Stop is called twice or more often, as when the subscriber returns and an interrupt comes
-- in, the loop of Run may wait forever to send the signal again: the loop of the statistics has
-- returned, and a second signal has taken the room in the channel.
pub both_loops-Blocks :
    (k : ℕ)
    → (s : Quit) × QuitSteps (both_loops (suc (suc k))) 5 s × IsStuck s × (s.run ≡ resending)
both_loops-Blocks k = (
  blocked k,
  and_next
      (and_next
        (and_next
          (and_next (and_next at_first (stop_sends (suc k) refl refl)) (stats_receives refl refl))
          (stats_resends refl refl))
        (run_receives refl refl))
      (stop_sends k refl refl),
  blocked-IsStuck k,
  refl,
)
