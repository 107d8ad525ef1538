-- ===== src/Base/Bits.antt =====
-- `&` with a complemented mask, `x &^ (2^k - 1)` on a 32-bit word, as arithmetic.
use Prim.Native.Nat.{ℕ, zero, suc, ◌+◌, ◌-◌, ◌*◌, ◌/◌, ◌%◌, ◌^◌, ◌≤◌, ◌<◌, min}
use Prim.Native.Nat.{bit_and, digits, bit_and-bitwise}
use mathlib.Core.Path.{◌≡◌, refl, ap, ◌∙◌}
use native.Mathlib.Nat.{pow-suc, one-le-pow}
use native.Mathlib.Omega.{arith}

-- A digit-wise operation does not see how much fuel it runs on, if it is enough for the first number.
module _ (op : ℕ → ℕ → ℕ) where
  abbrev digit_wise : ℕ → ℕ → ℕ → ℕ
  digit_wise fuel x y = digits (λ rest. 0) op fuel x y

  digit_wise_enough :
      (x y fuel more : ℕ) → x ≤ more → x ≤ fuel → digit_wise more x y ≡ digit_wise fuel x y
  digit_wise_enough zero y zero zero high low = refl
  digit_wise_enough zero y (suc fuel) zero high low = refl
  digit_wise_enough zero y zero (suc more) high low = refl
  digit_wise_enough zero y (suc fuel) (suc more) high low = refl
  digit_wise_enough (suc x) y fuel zero high low = absurd (omega arith)
  digit_wise_enough (suc x) y zero (suc more) high low = absurd (omega arith)
  digit_wise_enough (suc x) y (suc fuel) (suc more) high low =
      let halves : digit_wise more (suc x / 2) (y / 2) ≡ digit_wise fuel (suc x / 2) (y / 2) =
        digit_wise_enough (suc x / 2) (y / 2) fuel more (omega arith) (omega arith) in
      omega (arith, halves)

-- The lowest binary digit of a conjunction, and the rest.
halve : (x y : ℕ) → bit_and x y ≡ bit_and (x / 2) (y / 2) * 2 + min (x % 2) (y % 2)
halve zero y = omega (arith, bit_and-bitwise 0 y, bit_and-bitwise 0 (y / 2))
halve (suc x) y =
    let whole : bit_and (suc x) y ≡ digit_wise min (suc x) (suc x) y = bit_and-bitwise (suc x) y in
    let rest : bit_and (suc x / 2) (y / 2) ≡ digit_wise min x (suc x / 2) (y / 2) =
      bit_and-bitwise (suc x / 2) (y / 2)
      ∙ digit_wise_enough min (suc x / 2) (y / 2) x (suc x / 2) (omega arith) (omega arith) in
    omega (arith, whole, rest)

-- A mask of `k` ones keeps a number of `k` bits.
keep_all : (k x : ℕ) → x < 2 ^ k → bit_and x (2 ^ k - 1) ≡ x
keep_all zero zero h = bit_and-bitwise 0 0
keep_all zero (suc x) h = absurd (omega arith)
keep_all (suc k) x h = omega (
  arith,
  halve x (2 ^ suc k - 1),
  half_mask,
  keep_all k (x / 2) (omega (arith, pow-suc 2 k)),
  pow-suc 2 k,
  one-le-pow k 2,
)
  where
    half_mask : bit_and (x / 2) ((2 ^ suc k - 1) / 2) ≡ bit_and (x / 2) (2 ^ k - 1)
    half_mask = ap (λ (t : ℕ). bit_and (x / 2) t) (omega (arith, pow-suc 2 k, one-le-pow k 2))

pub clear_two_bits : (x : ℕ) → x < 2 ^ 32 → bit_and x (2 ^ 32 - 4) ≡ x / 4 * 4
clear_two_bits x h =
    omega (
      arith,
      halve x (2 ^ 32 - 4),
      halve (x / 2) (2 ^ 31 - 2),
      keep_all 30 (x / 2 / 2) (omega arith),
    )

pub clear_four_bits : (x : ℕ) → x < 2 ^ 32 → bit_and x (2 ^ 32 - 16) ≡ x / 16 * 16
clear_four_bits x h = omega (
  arith,
  halve x (2 ^ 32 - 16),
  halve (x / 2) (2 ^ 31 - 8),
  halve (x / 2 / 2) (2 ^ 30 - 4),
  halve (x / 2 / 2 / 2) (2 ^ 29 - 2),
  keep_all 28 (x / 2 / 2 / 2 / 2) (omega arith),
)
