-- ===== src/Base/Bits.antt =====
-- Facts about `bit_or` and `bit_and` at variables: joining disjoint fields is a sum, masking the
-- low bits is a remainder.
use Prim.Native.Nat.{
  ℕ, zero, suc, ◌+◌, ◌-◌, ◌*◌, ◌/◌, ◌%◌, ◌^◌, ◌≤◌, ◌<◌, min, max, bit_and, bit_or, digits,
  bit_and-bitwise, bit_or-bitwise,
}
use mathlib.Core.Path.{◌≡◌, ◌∙◌, refl, ap, subst}
use native.Mathlib.Nat.{pow-suc}
use native.Mathlib.Omega.{arith}

-- Once the fuel covers the left operand, more of it changes nothing. This holds of the digits of any
-- operation `op` with `low` at an empty left operand.
module _ (low : ℕ → ℕ) (op : ℕ → ℕ → ℕ) where
  digits-suc : (fuel x y : ℕ) → x ≤ fuel → digits low op (suc fuel) x y ≡ digits low op fuel x y
  digits-suc zero zero y covers = refl
  digits-suc zero (suc x) y covers = absurd (omega arith)
  digits-suc (suc fuel) zero y covers = refl
  digits-suc (suc fuel) (suc x) y covers =
      ap (λ d. d * 2 + op (suc x % 2) (y % 2)) (digits-suc fuel (suc x / 2) (y / 2) (omega arith))

  digits_enough :
      (extra fuel x y : ℕ) → x ≤ fuel → digits low op (extra + fuel) x y ≡ digits low op fuel x y
  digits_enough zero fuel x y covers =
      let same : 0 + fuel ≡ fuel = omega arith in ap (λ n. digits low op n x y) same
  digits_enough (suc extra) fuel x y covers =
      let next : suc extra + fuel ≡ suc (extra + fuel) = omega arith in
      ap (λ n. digits low op n x y) next
      ∙ digits-suc (extra + fuel) x y (omega arith)
      ∙ digits_enough extra fuel x y covers

  -- The digits of half an operand, with the fuel that the whole one leaves.
  digits-half : (x y : ℕ) → digits low op x (suc x / 2) y ≡ digits low op (suc x / 2) (suc x / 2) y
  digits-half x y =
      let spare = x - suc x / 2 in
      let enough : spare + suc x / 2 ≡ x = omega arith in
      subst (λ fuel. digits low op fuel (suc x / 2) y ≡ digits low op (suc x / 2) (suc x / 2) y)
        enough (digits_enough spare (suc x / 2) (suc x / 2) y (omega arith))

-- An operation's lowest digit, and the others.
pub bit_and_step : (x y : ℕ) → bit_and x y ≡ bit_and (x / 2) (y / 2) * 2 + min (x % 2) (y % 2)
bit_and_step zero y = rw (bit_and-bitwise 0 y, bit_and-bitwise (0 / 2) (y / 2)) (omega arith)
bit_and_step (suc x) y = rw (
  bit_and-bitwise (suc x) y,
  bit_and-bitwise (suc x / 2) (y / 2),
  digits-half (λ _. 0) min x (y / 2),
)

pub zero-bit_or : (y : ℕ) → bit_or 0 y ≡ y
zero-bit_or = bit_or-bitwise 0

pub bit_or_step : (x y : ℕ) → bit_or x y ≡ bit_or (x / 2) (y / 2) * 2 + max (x % 2) (y % 2)
bit_or_step zero y = rw (zero-bit_or y, zero-bit_or (y / 2)) (omega arith)
bit_or_step (suc x) y = rw (
  bit_or-bitwise (suc x) y,
  bit_or-bitwise (suc x / 2) (y / 2),
  digits-half (λ z. z) max x (y / 2),
)

-- Both operations with zero on the right, by the bound that halving lowers.
right_zero : (bound x : ℕ) → x ≤ bound → (bit_or x 0 ≡ x) × (bit_and x 0 ≡ 0)
right_zero bound zero le = (refl, refl)
right_zero zero (suc x) le = absurd (omega arith)
right_zero (suc bound) (suc x) le =
    let (or_half, and_half) = right_zero bound (suc x / 2) (omega arith) in
    (omega (arith, or_half, bit_or_step (suc x) 0), omega (arith, and_half, bit_and_step (suc x) 0))

bit_or_double : (a b : ℕ) → bit_or (2 * a) b ≡ 2 * bit_or a (b / 2) + b % 2
bit_or_double a b =
    let half : 2 * a / 2 ≡ a = omega arith in
    omega (arith, bit_or_step (2 * a) b, ap (λ k. bit_or k (b / 2)) half)

-- Joining a field above bit `k` with one below it is their sum.
pub bit_or-shl : (k x y : ℕ) → y < 2 ^ k → bit_or (x * 2 ^ k) y ≡ x * 2 ^ k + y
bit_or-shl zero x zero h = omega (arith, (right_zero (x * 1) (x * 1) (omega arith)).0)
bit_or-shl zero x (suc y) h = absurd (omega arith)
bit_or-shl (suc k) x y h =
    let wide : x * 2 ^ suc k ≡ 2 * (x * 2 ^ k) = omega (arith, ap (λ p. x * p) (pow-suc 2 k)) in
    rw wide (omega (arith, pow-suc 2 k, bit_or_double (x * 2 ^ k) y, bit_or-shl k x (y / 2)))

bit_and_odd : (a m : ℕ) → bit_and a (2 * m + 1) ≡ 2 * bit_and (a / 2) m + a % 2
bit_and_odd a m =
    let half : (2 * m + 1) / 2 ≡ m = omega arith in
    omega (arith, bit_and_step a (2 * m + 1), ap (bit_and (a / 2)) half)

-- Masking by 0x3f keeps the remainder by 64.
pub bit_and-sextet : (a : ℕ) → bit_and a 0x3f ≡ a % 64
bit_and-sextet a = omega (
  arith,
  bit_and_odd a 31,
  bit_and_odd (a / 2) 15,
  bit_and_odd (a / 2 / 2) 7,
  bit_and_odd (a / 2 / 2 / 2) 3,
  bit_and_odd (a / 2 / 2 / 2 / 2) 1,
  bit_and_odd (a / 2 / 2 / 2 / 2 / 2) 0,
  (right_zero (a / 2 / 2 / 2 / 2 / 2 / 2) (a / 2 / 2 / 2 / 2 / 2 / 2) (omega arith)).1,
)
