-- ===== src/Machine/Ints.antt =====
-- `int` arithmetic on 32-bit patterns: a result outside -2^31 to 2^31 - 1 is undefined in C.
use loof_os.Base.{
  ℕ, ◌+◌, ◌-◌, ◌*◌, ◌/◌, ◌%◌, ◌^◌, ◌<◌, ◌≡◌, refl, arith, Bool, true, false, ltb, leb,
  if◌then◌else◌, ltb_of_lt, leb_of_le, leb_of_lt, add32, u32,
}
use loof_os.Machine.{Cmd, ok, undefined}

-- A sign (true is minus) and a size.
abbrev pub int_of : Bool → ℕ → ℕ
int_of true n = u32 (2 ^ 32 - n)
int_of false n = n

abbrev pub negative : ℕ → Bool
negative w = leb (2 ^ 31) w

abbrev pub magnitude : ℕ → ℕ
magnitude w = if negative w then 2 ^ 32 - w else w

-- C rounds a quotient towards 0, and the remainder has the dividend's sign.
unfoldable pub int_div : ℕ → ℕ → ℕ
int_div w d = int_of (negative w) (magnitude w / d)

unfoldable pub int_rem : ℕ → ℕ → ℕ
int_rem w d = int_of (negative w) (magnitude w % d)

-- The sum overflows where the signs of both numbers differ from its own.
unfoldable pub int_add : {S : Type 0} → ℕ → ℕ → Cmd S ℕ
int_add a b s =
    let same = (if leb (2 ^ 31) a then leb (2 ^ 31) b else ltb b (2 ^ 31)) in
    let kept = (if leb (2 ^ 31) a then leb (2 ^ 31) (add32 a b) else ltb (add32 a b) (2 ^ 31)) in
    if same then (if kept then ok (add32 a b) s else undefined) else ok (add32 a b) s

-- The product with a positive number.
unfoldable pub int_mul : {S : Type 0} → ℕ → ℕ → Cmd S ℕ
int_mul n w s =
    if leb (n * magnitude w) (if negative w then 2 ^ 31 else 2 ^ 31 - 1)
    then ok (int_of (negative w) (n * magnitude w)) s
    else undefined

pub int_div-pos : (w d : ℕ) → w < 2 ^ 31 → int_div w d ≡ w / d
unfolding int_div
int_div-pos w d lt = rw (leb_of_lt {a = 2 ^ 31} {b = w} lt) refl

pub int_rem-pos : (w d : ℕ) → w < 2 ^ 31 → int_rem w d ≡ w % d
unfolding int_rem
int_rem-pos w d lt = rw (leb_of_lt {a = 2 ^ 31} {b = w} lt) refl

pub int_add-pos : {S : Type 0} (a b : ℕ) (s : S) → a + b < 2 ^ 31 → int_add a b s ≡ ok (a + b) s
unfolding int_add
int_add-pos a b s lt =
    rw
      (
        sum,
        leb_of_lt {a = 2 ^ 31} {b = a} (omega (arith, lt)),
        ltb_of_lt {a = b} {b = 2 ^ 31} (omega (arith, lt)),
        ltb_of_lt {a = a + b} {b = 2 ^ 31} lt,
      )
      refl
  where
    sum : add32 a b ≡ a + b
    sum = omega (arith, lt)

pub int_mul-pos :
    {S : Type 0} (n w : ℕ) (s : S) → w < 2 ^ 31 → n * w < 2 ^ 31 → int_mul n w s ≡ ok (n * w) s
unfolding int_mul
int_mul-pos n w s small lt =
    rw
      (
        leb_of_lt {a = 2 ^ 31} {b = w} small,
        leb_of_le {a = n * w} {b = 2 ^ 31 - 1} (omega (arith, lt)),
      )
      refl
