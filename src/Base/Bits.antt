-- ===== src/Base/Bits.antt =====
-- `^` with a single bit, as arithmetic: it moves between the two halves of an aligned pair.
use Prim.Native.Nat.{
  ℕ, zero, suc, ◌+◌, ◌-◌, ◌*◌, ◌/◌, ◌%◌, ◌^◌, ◌≤◌, ◌<◌, bit_xor, digits, bit_xor-bitwise, differ,
}
use mathlib.Core.Path.{◌≡◌, refl, ap}
use mathlib.Core.WellFounded.{Acc, WellFounded, induction}
use native.Mathlib.Omega.{arith}
use native.Mathlib.Nat.{pow-suc}

acc_below : (k n : ℕ) → n < k → Acc ◌<◌ n
acc_below zero n h = absurd (omega arith)
acc_below (suc k) n h = Acc.intro n (λ m m<n. acc_below k m (omega arith))

pub lt_wf : WellFounded ◌<◌
lt_wf = record { apply = λ n. acc_below (suc n) n (omega arith) }

abbrev xor_digits : ℕ → ℕ → ℕ → ℕ
xor_digits n a b = digits (λ b. b) differ n a b

-- Enough fuel is as good as any.
xor_digits_fuel : (n m a b : ℕ) → a ≤ n → a ≤ m → xor_digits n a b ≡ xor_digits m a b
xor_digits_fuel zero zero a b p q = refl
xor_digits_fuel zero (suc m) zero b p q = refl
xor_digits_fuel zero (suc m) (suc a) b p q = absurd (omega arith)
xor_digits_fuel (suc n) zero zero b p q = refl
xor_digits_fuel (suc n) zero (suc a) b p q = absurd (omega arith)
xor_digits_fuel (suc n) (suc m) zero b p q = refl
xor_digits_fuel (suc n) (suc m) (suc a) b p q =
    rw (xor_digits_fuel n m (suc a / 2) (b / 2) (omega arith) (omega arith))

zero-xor : (b : ℕ) → bit_xor 0 b ≡ b
zero-xor b = bit_xor-bitwise 0 b

-- The lowest digit of an exclusive or.
pub xor_step : (a b : ℕ) → bit_xor a b ≡ bit_xor (a / 2) (b / 2) * 2 + differ (a % 2) (b % 2)
xor_step zero b = omega (arith, zero-xor b, zero-xor (b / 2))
xor_step (suc a) b = omega (
  arith,
  bit_xor-bitwise (suc a) b,
  bit_xor-bitwise (suc a / 2) (b / 2),
  xor_digits_fuel a (suc a / 2) (suc a / 2) (b / 2) (omega arith) (omega arith),
)

pub differ-zero : (a : ℕ) → differ a 0 ≡ a
differ-zero zero = refl
differ-zero (suc a) = refl

differ-one : (a : ℕ) → a < 2 → differ a 1 ≡ 1 - a
differ-one zero h = refl
differ-one (suc zero) h = refl
differ-one (suc (suc a)) h = absurd (omega arith)

xor-zero : (a : ℕ) → bit_xor a 0 ≡ a
xor-zero a = induction lt_wf a step
  where
    step : (n : ℕ) → ((m : ℕ) → m < n → bit_xor m 0 ≡ m) → bit_xor n 0 ≡ n
    step zero ih = refl
    step (suc n) ih =
        omega (arith, xor_step (suc n) 0, ih (suc n / 2) (omega arith), differ-zero (suc n % 2))

-- An even number goes up by one, an odd one down.
pub xor-one : (q : ℕ) → bit_xor q 1 ≡ q + 1 - 2 * (q % 2)
xor-one q = omega (arith, xor_step q 1, xor-zero (q / 2), differ-one (q % 2) (omega arith))

pub double_pow : (q k : ℕ) → q * 2 ^ suc k ≡ 2 * (q * 2 ^ k)
double_pow q k = omega (arith, ap (λ (t : ℕ). q * t) (pow-suc 2 k))

module _ (k q r : ℕ) (h : r < 2 ^ suc k) where
  half_lt : r / 2 < 2 ^ k
  half_lt = omega (arith, pow-suc 2 k)

  half_left : (q * 2 ^ suc k + r) / 2 ≡ q * 2 ^ k + r / 2
  half_left = omega (arith, double_pow q k)

  half_right : 2 ^ suc k / 2 ≡ 2 ^ k
  half_right = omega (arith, pow-suc 2 k)

  odd_right : 2 ^ suc k % 2 ≡ 0
  odd_right = omega (arith, pow-suc 2 k)

  last_digit : differ ((q * 2 ^ suc k + r) % 2) (2 ^ suc k % 2) ≡ r % 2
  last_digit = rw odd_right (omega (arith, double_pow q k, differ-zero ((q * 2 ^ suc k + r) % 2)))

  xor_halves :
      bit_xor (q * 2 ^ suc k + r) (2 ^ suc k) ≡ bit_xor (q * 2 ^ k + r / 2) (2 ^ k) * 2 + r % 2
  xor_halves = rw (xor_step (q * 2 ^ suc k + r) (2 ^ suc k), half_left, half_right, last_digit)

-- At bit `k` of `q * 2 ^ k + r` the exclusive or acts on `q` alone.
pub xor_bit :
    (k q r : ℕ) → r < 2 ^ k → bit_xor (q * 2 ^ k + r) (2 ^ k) ≡ (q + 1 - 2 * (q % 2)) * 2 ^ k + r
xor_bit zero q r h = ground (arith, xor-one q)
xor_bit (suc k) q r h = omega (
  arith,
  xor_halves k q r h,
  xor_bit k q (r / 2) (half_lt k q r h),
  double_pow (q + 1 - 2 * (q % 2)) k,
)
