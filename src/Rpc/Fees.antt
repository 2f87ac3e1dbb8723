-- ===== src/Rpc/Fees.antt =====
-- The fee of an entry of the node's mempool, which the node gives in bitcoins as a number of the
-- type float64, in satoshis (line 68 of rpcmempool.go).
use native.Mathlib.Nat.{
  div-add-mod', mod-lt, div-mul-le_self, lt-mul-div-succ, pow-le-pow_right, lt_of_mul-lt-mul_right,
  one-le-pow,
}
use x_b10cslashbademeister.Common.{
  ℕ, zero, suc, ◌+◌, ◌*◌, ◌/◌, ◌%◌, ◌^◌, ◌<◌, ◌≤◌, ◌≡◌, ◌⊎◌, Bool, true, false, if◌then◌else◌,
  arith,
}
use x_b10cslashbademeister.Rpc.{Float64, excess_bits, round_to_even, satoshis}

-- The number of the type float64 that is nearest to n satoshis in bitcoins, or an equally near one.
-- It is below 2^25, and there are no more than 21 million bitcoins.
pub record IsNear (base : Float64) (n : ℕ) : Type 0 where
  pub bits : base.mantissa < 2 ^ 53
  pub scale : 28 ≤ base.exponent
  pub above : 2 * (base.mantissa * 100000000) ≤ 2 * (n * 2 ^ base.exponent) + 100000000
  pub below : 2 * (n * 2 ^ base.exponent) ≤ 2 * (base.mantissa * 100000000) + 100000000

excess_bits-le : (fuel n : ℕ) → excess_bits fuel n ≤ fuel
unfolding excess_bits
excess_bits-le zero n = omega arith
excess_bits-le (suc fuel) n = ground (arith, excess_bits-le fuel (n / 2))

choice-near :
    (up : Bool) (low rest power n : ℕ)
    → low * power + rest ≡ n
    → rest < power
    → ((if up then suc low * power else low * power) ≤ n + power)
      × (n ≤ (if up then suc low * power else low * power) + power)
choice-near true low rest power n whole small =
    (omega (arith, whole, small), omega (arith, whole, small))
choice-near false low rest power n whole small =
    (omega (arith, whole, small), omega (arith, whole, small))

-- What is rounded off is at most the power.
round_to_even-near :
    (n bits : ℕ) → (round_to_even n bits ≤ n + 2 ^ bits) × (n ≤ round_to_even n bits + 2 ^ bits)
unfolding round_to_even
round_to_even-near n bits =
    choice-near _ (n / 2 ^ bits) (n % 2 ^ bits) (2 ^ bits) n (div-add-mod' n (2 ^ bits))
      (mod-lt n (one-le-pow bits 2 (omega arith)))

-- A number less than a multiple away from n times another, divided by that.
div-near :
    (r power n : ℕ)
    → 0 < power
    → r < n * power + power
    → n * power < r + power
    → (r / power ≡ n) ⊎ (suc (r / power) ≡ n)
div-near r power n positive above below =
    let lower = div-mul-le_self r power in
    let upper = lt-mul-div-succ r positive in
    let at_most : r / power < suc n = lt_of_mul-lt-mul_right power (omega (arith, lower, above)) in
    let at_least : n < r / power + 2 = lt_of_mul-lt-mul_right power (omega (arith, upper, below)) in
    ground (arith, at_most, at_least)

-- The fee in satoshis is that which the number is near, or one less.
pub satoshis-IsNear :
    (base : Float64) (n : ℕ) → IsNear base n → (satoshis base ≡ n) ⊎ (suc (satoshis base) ≡ n)
unfolding satoshis
satoshis-IsNear base n near =
    let product = base.mantissa * 100000000 in
    let bits = excess_bits 27 product in
    let few = excess_bits-le 27 product in
    let rounded = round_to_even-near product bits in
    let power : 2 ^ bits ≤ 2 ^ 27 = pow-le-pow_right (omega arith) few in
    let scale : 2 ^ 28 ≤ 2 ^ base.exponent = pow-le-pow_right (omega arith) near.scale in
    div-near (round_to_even product bits) (2 ^ base.exponent) n (omega (arith, scale))
      (omega (arith, rounded.0, power, scale, near.above))
      (omega (arith, rounded.1, power, scale, near.below))
