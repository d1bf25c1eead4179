-- ===== src/Base/BitOr.antt =====
-- `|` of numbers with no bit in common is their sum.
use Prim.Native.Nat.{
  ℕ, zero, suc, ◌+◌, ◌*◌, ◌/◌, ◌%◌, ◌^◌, ◌≤◌, ◌<◌, bit_or, digits, bit_or-bitwise, max,
}
use mathlib.Core.Path.{◌≡◌, refl, ap₂, ◌∙◌}
use native.Mathlib.Omega.{arith}
use native.Mathlib.Nat.{pow-suc}
use mathlib.Core.WellFounded.{induction}
use loof_os.Base.Bits.{lt_wf, double_pow}

abbrev or_digits : ℕ → ℕ → ℕ → ℕ
or_digits n a b = digits (λ b. b) max n a b

or_digits_fuel : (n m a b : ℕ) → a ≤ n → a ≤ m → or_digits n a b ≡ or_digits m a b
or_digits_fuel zero zero a b p q = refl
or_digits_fuel zero (suc m) zero b p q = refl
or_digits_fuel zero (suc m) (suc a) b p q = absurd (omega arith)
or_digits_fuel (suc n) zero zero b p q = refl
or_digits_fuel (suc n) zero (suc a) b p q = absurd (omega arith)
or_digits_fuel (suc n) (suc m) zero b p q = refl
or_digits_fuel (suc n) (suc m) (suc a) b p q =
    rw (or_digits_fuel n m (suc a / 2) (b / 2) (omega arith) (omega arith))

pub zero-or : (b : ℕ) → bit_or 0 b ≡ b
zero-or b = bit_or-bitwise 0 b

-- The lowest digit of a disjunction.
or_step : (a b : ℕ) → bit_or a b ≡ bit_or (a / 2) (b / 2) * 2 + max (a % 2) (b % 2)
or_step zero b = omega (arith, zero-or b, zero-or (b / 2))
or_step (suc a) b = omega (
  arith,
  bit_or-bitwise (suc a) b,
  bit_or-bitwise (suc a / 2) (b / 2),
  or_digits_fuel a (suc a / 2) (suc a / 2) (b / 2) (omega arith) (omega arith),
)

or-zero : (a : ℕ) → bit_or a 0 ≡ a
or-zero a = induction lt_wf a step
  where
    step : (n : ℕ) → ((m : ℕ) → m < n → bit_or m 0 ≡ m) → bit_or n 0 ≡ n
    step zero ih = zero-or 0
    step (suc n) ih = omega (arith, or_step (suc n) 0, ih (suc n / 2) (omega arith))

module _ (k q r : ℕ) (h : r < 2 ^ suc k) where
  half_lt : r / 2 < 2 ^ k
  half_lt = omega (arith, pow-suc 2 k)

  half : q * 2 ^ suc k / 2 ≡ q * 2 ^ k
  half = omega (arith, double_pow q k)

  even : q * 2 ^ suc k % 2 ≡ 0
  even = omega (arith, double_pow q k)

times_one : (q : ℕ) → q * 2 ^ 0 ≡ q
times_one q = omega arith

below_one : (r : ℕ) → r < 2 ^ 0 → r ≡ 0
below_one r h = omega arith

pub or_above : (k q r : ℕ) → r < 2 ^ k → bit_or (q * 2 ^ k) r ≡ q * 2 ^ k + r
or_above zero q r h = ap₂ bit_or (times_one q) (below_one r h) ∙ or-zero q ∙ omega (arith, h)
or_above (suc k) q r h =
    rw
      (
        or_step (q * 2 ^ suc k) r,
        half k q r h,
        even k q r h,
        or_above k q (r / 2) (half_lt k q r h),
      )
      (omega (arith, double_pow q k))

pub or_below : (k q r : ℕ) → r < 2 ^ k → bit_or r (q * 2 ^ k) ≡ q * 2 ^ k + r
or_below zero q r h = ap₂ bit_or (below_one r h) (times_one q) ∙ zero-or q ∙ omega (arith, h)
or_below (suc k) q r h =
    rw
      (
        or_step r (q * 2 ^ suc k),
        half k q r h,
        even k q r h,
        or_below k q (r / 2) (half_lt k q r h),
      )
      (omega (arith, double_pow q k))
