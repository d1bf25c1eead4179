-- ===== src/Alloc/Round.antt =====
-- `round_block_size`: the size of the block for a request.
use native.Mathlib.Nat.{pow-le-pow_right, div-eq_of_lt}
use native.Mathlib.Numerals.{add-one}
use loof_os.Base.{
  ℕ, zero, suc, ◌+◌, ◌*◌, ◌/◌, ◌^◌, ◌≤◌, ◌<◌, ◌≡◌, inl, inr, refl, ◌∙◌, arith, ==_of_eq, ==_of_gt,
  ltb_of_lt, ltb_of_le, lt_cases, pow-suc,
}
use loof_os.Machine.{ok, undefined}
use loof_os.Machine.Memory.{bit32-ok}
use loof_os.Alloc.{round_loop, round_block_size}
use loof_os.Alloc.Blocks.{one-le-two_pow}

-- `n` is the least size from 3 on whose power of two is larger than `size`.
pub record IsOrder (size n : ℕ) : Type 0 where
  pub large : 3 ≤ n
  pub small : n < 32
  pub holds : size < 2 ^ n
  pub least : 3 < n → 2 ^ n ≤ 2 * size

next_pow : (b : ℕ) → 2 ^ (b + 1) ≡ 2 * 2 ^ b
next_pow b = rw add-one (omega (arith, pow-suc 2 b))

exponent-lt : (b size : ℕ) → 2 ^ b ≤ size → size < 2 ^ 31 → b < 31
exponent-lt b size low high = elim (lt_cases b 31) [
  | inl lt ↦ lt
  | inr le ↦ let grown : 2 ^ 31 ≤ 2 ^ b = pow-le-pow_right (omega arith) le in absurd (omega arith)
]

round-lt : (b size : ℕ) → (2 < b → 2 ^ b ≤ size) → size < 2 ^ 31 → b < 31
round-lt b size reached small = elim (lt_cases 2 b) [
  | inl lt ↦ exponent-lt b size (reached lt) small
  | inr le ↦ omega arith
]

div_pos : (m d : ℕ) → 1 ≤ d → d ≤ m → 0 < m / d
div_pos m d p h = grind arith

module _ (size : ℕ) {S : Type 0} (h : S) where
  round_stop :
      (f b : ℕ) → b + 1 < 32 → size < 2 ^ (b + 1) → round_loop (suc f) size b h ≡ ok (b + 1) h
  unfolding round_loop
  round_stop f b small stop =
      rw
        (
          ltb_of_lt {a = b + 1} {b = 32} small,
          ==_of_eq {a = size / 2 ^ (b + 1)} {b = 0} (div-eq_of_lt stop),
        )
        refl

  round_go :
      (f b : ℕ)
      → b + 1 < 32
      → 2 ^ (b + 1) ≤ size
      → round_loop (suc f) size b h ≡ round_loop f size (b + 1) h
  unfolding round_loop
  round_go f b small go =
      rw
        (
          ltb_of_lt {a = b + 1} {b = 32} small,
          ==_of_gt {a = size / 2 ^ (b + 1)} {b = 0}
              (div_pos size (2 ^ (b + 1)) (one-le-two_pow (b + 1)) go),
        )
        refl

  round_loop-IsOrder :
      (f b : ℕ)
      → f + b ≡ 32
      → 2 ≤ b
      → (2 < b → 2 ^ b ≤ size)
      → size < 2 ^ 31
      → (n : ℕ) × (round_loop f size b h ≡ ok n h) × IsOrder size n
  round_loop-IsOrder zero b e large reached small =
      absurd (omega (arith, round-lt b size reached small))
  round_loop-IsOrder (suc f) b e large reached small = elim (lt_cases size (2 ^ (b + 1))) [
    | inl stop ↦ (
      b + 1,
      round_stop f b (omega (arith, round-lt b size reached small)) stop,
      record {
        large = omega arith;
        small = omega (arith, round-lt b size reached small);
        holds = stop;
        least = λ p. omega (arith, reached (omega arith), next_pow b);
      },
    )
    | inr go ↦
        let (n, r, o) = round_loop-IsOrder f (b + 1) (omega arith) (omega arith) (λ _. go) small in
        (n, round_go f b (omega (arith, round-lt b size reached small)) go ∙ r, o)
  ]

  round_overflow :
      (f b : ℕ) → suc f + b ≡ 32 → 2 ^ 31 ≤ size → round_loop (suc f) size b h ≡ undefined
  unfolding round_loop
  round_overflow zero b e big = rw (ltb_of_le {a = b + 1} {b = 32} (omega arith))
  round_overflow (suc f) b e big =
      round_go (suc f) b (omega arith) reached ∙ round_overflow f (b + 1) (omega arith) big
    where
      reached : 2 ^ (b + 1) ≤ size
      reached =
          let low : b + 1 ≤ 31 = omega arith in
          let grown : 2 ^ (b + 1) ≤ 2 ^ 31 = pow-le-pow_right (omega arith) low in omega arith

  -- A request below 2 ^ 31 gets the least size from `min_block_size` on whose block is strictly
  -- larger than the request; the loop ends.
  pub round_block_size-IsOrder :
      size < 2 ^ 31 → (n : ℕ) × (round_block_size size h ≡ ok n h) × IsOrder size n
  unfolding round_block_size
  round_block_size-IsOrder small =
      let (n, r, o) =
        round_loop-IsOrder 30 2 (omega arith) (omega arith) (λ p. absurd (omega arith)) small in
      (
        n,
        rw (r, bit32-ok n h o.small, ltb_of_le {a = 2 ^ n} {b = size} (omega (arith, o.holds))),
        o,
      )

  -- From 2 ^ 31 on the loop shifts by the width of the word.
  pub round_block_size-undefined : 2 ^ 31 ≤ size → round_block_size size h ≡ undefined
  unfolding round_block_size
  round_block_size-undefined big = rw (round_overflow 29 2 (omega arith) big)
