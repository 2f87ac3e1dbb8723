-- ===== src/Rpc/Client/Ready.antt =====
-- How long the client waits for the node.
use x_b10cslashbademeister.Common.{
  ℕ, zero, suc, ◌+◌, ◌*◌, ◌≤◌, ◌<◌, ◌≡◌, ◌⊎◌, inl, inr, Bool-cases, Option, none, some,
  Option-cases, ltb, arith,
}
use x_b10cslashbademeister.Errors.{Result, ok, err, timed_out}
use x_b10cslashbademeister.Rpc.Client.{Library, wait_from, wait_till_rpc_server_ready}

all_below :
    (P : ℕ → Type 0) (k : ℕ) → P zero → ((j : ℕ) → j < k → P (suc j)) → (j : ℕ) → j < suc k → P j
all_below P k first later zero l = first
all_below P k first later (suc j) l = later j (omega arith)

module _ {N Raw : Type 0} (library : Library N Raw) where
  -- The node after a number of calls, and its answer to the next one.
  unfoldable pub after : ℕ → N → N
  after zero n = n
  after (suc k) n = after k (library.get_block_count n).1

  unfoldable pub answer : ℕ → N → Option ℕ
  unfolding after
  answer k n = (library.get_block_count (after k n)).0

  -- The first call that succeeds, or as many calls as begin in time.
  abbrev pub Waited : ℕ → ℕ → N → Result (Unit {0}) × N → Type 0
  Waited timeout current n out =
      ((k : ℕ) × (count : ℕ) × (current + k * 100 < timeout)
        × (answer k n ≡ some count)
        × ((j : ℕ) → j < k → answer j n ≡ none)
        × (out ≡ (ok tt, after (suc k) n)))
      ⊎ ((k : ℕ) × (timeout ≤ current + k * 100)
          × ((j : ℕ) → j < k → (current + j * 100 < timeout) × (answer j n ≡ none))
          × (out ≡ (err timed_out, after k n)))

  wait_from-Waited :
      (fuel timeout current : ℕ) (n : N)
      → 0 < fuel
      → timeout < fuel + current
      → Waited timeout current n (wait_from library fuel timeout current n)
  unfolding wait_from answer after
  wait_from-Waited zero timeout current n some_fuel enough = absurd (omega arith)
  wait_from-Waited (suc fuel) timeout current n some_fuel enough =
      elim (Bool-cases (ltb current timeout)) [
        | inr late ↦
            inr (zero, ground (arith, late), λ j l. absurd (omega arith), ground (arith, late))
        | inl early ↦ elim (Option-cases (library.get_block_count n).0) [
          | inr (count, e) ↦ inl (
            zero,
            count,
            ground (arith, early),
            e,
            λ j l. absurd (omega arith),
            ground (arith, early, e),
          )
          | inl e ↦
              let n' : N = (library.get_block_count n).1 in
              elim (wait_from-Waited fuel timeout (current + 100) n' (ground (arith, early))
                (omega arith)) [
                  | inl (k, count, in_time, found, before, out) ↦ inl (
                    suc k,
                    count,
                    omega arith,
                    found,
                    all_below (λ j. answer j n ≡ none) k e before,
                    ground (arith, early, e, out),
                  )
                  | inr (k, late, before, out) ↦ inr (
                    suc k,
                    omega arith,
                    all_below (λ j. (current + j * 100 < timeout) × (answer j n ≡ none)) k
                        (ground (arith, early), e)
                        (λ j l. let b = before j l in (omega (arith, b.0), b.1)),
                    ground (arith, early, e, out),
                  )
                ]
        ]
      ]

  -- The wait ends. It returns nil after the first call that succeeds, where that call begins before
  -- the timeout, counted in pauses of 100 milliseconds; otherwise every call that begins before the
  -- timeout has been made and has failed, and it returns the error of the timeout.
  pub wait_till_rpc_server_ready-Waited :
      (timeout : ℕ) (n : N) → Waited timeout 0 n (wait_till_rpc_server_ready library timeout n)
  unfolding wait_till_rpc_server_ready
  wait_till_rpc_server_ready-Waited timeout n =
      wait_from-Waited (suc timeout) timeout 0 n (omega arith) (omega arith)
