-- ===== src/Daemon/Quit.antt =====
-- The channel `quit` of src/daemon/daemon.go, which has room for one signal: `Stop` sends one, and
-- the loop of `Run` and that of the statistics each take one and send it again before they
-- return.
pub mod Stops
use x_b10cslashbademeister.Common.{ℕ, zero, suc, ◌+◌, ◌≡◌, Bool, true, false, if◌then◌else◌}

-- Where a loop stands: it has not received the signal, sends it again, or has returned.
pub data Loop : Type 0 where
  waiting resending ended : Loop

-- `stops` counts the calls of `Stop` that have not sent their signal yet.
pub record Quit : Type 0 where
  pub full : Bool
  pub stops : ℕ
  pub stats : Loop
  pub run : Loop

-- A send goes on as soon as the channel has room, and a receive as soon as it has a signal.
pub data QuitStep (q : Quit) : Quit → Type 0 where
  stop_sends :
      (n : ℕ) → q.full ≡ false → q.stops ≡ suc n → QuitStep q (record q { full = true; stops = n })
  stats_receives :
      q.full ≡ true → q.stats ≡ waiting → QuitStep q (record q { full = false; stats = resending })
  stats_resends :
      q.full ≡ false → q.stats ≡ resending → QuitStep q (record q { full = true; stats = ended })
  run_receives :
      q.full ≡ true → q.run ≡ waiting → QuitStep q (record q { full = false; run = resending })
  run_resends :
      q.full ≡ false → q.run ≡ resending → QuitStep q (record q { full = true; run = ended })

pub data QuitSteps (q : Quit) : ℕ → Quit → Type 0 where
  at_first : QuitSteps q zero q
  and_next : {n : ℕ} {r s : Quit} → QuitSteps q n r → QuitStep r s → QuitSteps q (suc n) s

-- The daemon with both loops running, and a number of calls of `Stop` to come.
abbrev pub both_loops : ℕ → Quit
both_loops stops = record { full = false; stops = stops; stats = waiting; run = waiting }
