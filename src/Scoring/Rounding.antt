-- ===== src/Scoring/Rounding.antt =====
-- Rounding to hundredths keeps the order and the bounds.
use Prim.Native.Nat.{◌/◌}
use native.Mathlib.Nat.{le-div_iff_mul-le, div-lt_iff_lt-mul, add-mul, mul_left_comm}
use btx_omni_prospect.Prelude.{ℕ, ◌+◌, ◌*◌, ◌≤◌, ◌<◌, ◌≡◌, arith}
use btx_omni_prospect.Scoring.Rubric.{rounded}

div_mono : (a b n : ℕ) → 0 < n → a ≤ b → a / n ≤ b / n
div_mono a b n p h =
    let below : a / n * n ≤ a = (le-div_iff_mul-le p).0 (omega arith) in
    (le-div_iff_mul-le p).1 (omega arith)

pub rounded_mono : (unit a b : ℕ) → 1 ≤ unit → a ≤ b → rounded unit a ≤ rounded unit b
unfolding rounded
rounded_mono unit a b p h =
    div_mono (2 * a + unit) (2 * b + unit) (2 * unit) (omega arith) (omega arith)

pub rounded-le : (unit a k : ℕ) → 1 ≤ unit → a ≤ k * unit → rounded unit a ≤ k
unfolding rounded
rounded-le unit a k p h =
    let wide : (k + 1) * (2 * unit) ≡ 2 * (k * unit) + 2 * unit =
      omega (arith, add-mul k 1 (2 * unit), mul_left_comm k 2 unit) in
    let positive : 0 < 2 * unit = omega arith in
    let small : (2 * a + unit) / (2 * unit) < k + 1 =
      (div-lt_iff_lt-mul positive).1 (omega (arith, wide)) in
    omega (arith, small)

pub le-rounded : (unit a k : ℕ) → 1 ≤ unit → k * unit ≤ a → k ≤ rounded unit a
unfolding rounded
le-rounded unit a k p h =
    let positive : 0 < 2 * unit = omega arith in
    let wide : k * (2 * unit) ≡ 2 * (k * unit) = omega (arith, mul_left_comm k 2 unit) in
    (le-div_iff_mul-le positive).1 (omega (arith, wide))
