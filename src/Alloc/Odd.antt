-- ===== src/Alloc/Odd.antt =====
-- The loop of `coalesce_block` as `memory_free` enters it: at the first byte of the data, one behind
-- the header. It then reads and writes bytes at odd offsets only, and no header is at one.
use Prim.Native.Nat.{differ}
use loof_os.Base.{
  ℕ, zero, suc, ◌+◌, ◌-◌, ◌*◌, ◌/◌, ◌%◌, ◌^◌, ◌≤◌, ◌<◌, ◌≡◌, ◌≢◌, ◌⊎◌, inl, inr, refl, ◌∙◌, ap,
  Bool, true, false, ◌&&◌, arith, ltb, lt_cases, if◌then◌else◌, ◌==◌, Bool-cases, pow-suc, add32,
  sub32, bit_xor, ltb_of_le,
}
use loof_os.Base.Bits.{xor-one, xor_step, differ-zero}
use loof_os.Machine.{Mem, write, Run, ok, undefined, out_of_fuel, bit32}
use loof_os.Machine.Memory.{write_self, write_ne, bit32-ok}
use loof_os.Alloc.{get_size, get_used, set_size, coalesce_loop}

-- The parity of an offset from `start`, also where the difference wraps.
abbrev pub OddOffset : ℕ → ℕ → Type 0
OddOffset start x = (x + start) % 2 ≡ 1

-- The run ends, and where it returns, every byte at an even offset is as before.
abbrev pub KeepsEven : ℕ → Mem → Run Mem (Unit {0}) → Type 0
KeepsEven start h (ok _ h') = (y : ℕ) → (y + start) % 2 ≡ 0 → h' y ≡ h y
KeepsEven start h undefined = Unit {0}
KeepsEven start h out_of_fuel = ⊥

pub two_pow-even : (s : ℕ) → 1 ≤ s → 2 ^ s % 2 ≡ 0
two_pow-even zero h = absurd (omega arith)
two_pow-even (suc s) h = omega (arith, pow-suc 2 s)

-- Above the lowest bit an exclusive or keeps the parity.
xor-parity : (o s : ℕ) → 1 ≤ s → bit_xor o (2 ^ s) % 2 ≡ o % 2
xor-parity o s h =
    omega (arith, xor_step o (2 ^ s), ap (differ (o % 2)) (two_pow-even s h), differ-zero (o % 2))

buddy : ℕ → ℕ → ℕ → ℕ
buddy start x s = add32 (bit_xor (sub32 x start) (2 ^ s)) start

buddy-OddOffset :
    (start x s : ℕ) → start < 2 ^ 32 → 1 ≤ s → OddOffset start x → OddOffset start (buddy start x s)
unfolding buddy
buddy-OddOffset start x s small pos odd = omega (arith, xor-parity (sub32 x start) s pos)

module _ (start : ℕ) (low : start < 2 ^ 32) where
  -- A round that does not merge, and one that does.
  data Round (fuel x s : ℕ) (h : Mem) : Type 0 where
    stops : coalesce_loop (suc fuel) x start h ≡ ok tt h → Round fuel x s h
    merges :
        (z v : ℕ)
        → (z ≡ x) ⊎ (z ≡ buddy start x s)
        → v % 128 ≡ suc s
        → coalesce_loop (suc fuel) x start h ≡ coalesce_loop fuel z start (write h z v)
        → Round fuel x s h

  module _ (fuel x s : ℕ) (h : Mem) (small : s < 32) (size : h x % 128 ≡ s) where
    abbrev other : ℕ
    other = buddy start x s

    abbrev test : Bool
    test = (h other / 128 % 2 == 0) && (h other % 128 == s)

    stops-round : test ≡ false → coalesce_loop (suc fuel) x start h ≡ ok tt h
    unfolding coalesce_loop get_size get_used buddy
    stops-round no_match = rw (size, bit32-ok s h small, no_match) refl

    merges-round :
        (c : Bool)
        → test ≡ true
        → ltb x other ≡ c
        → let z = if c then x else other in
          coalesce_loop (suc fuel) x start h
          ≡ coalesce_loop fuel z start (write h z (h z / 128 % 2 * 128 + (s + 1) % 128))
    unfolding coalesce_loop get_size get_used set_size buddy
    merges-round c match side = rw (size, bit32-ok s h small, match, side) refl

    Round-total : Round fuel x s h
    Round-total = elim (Bool-cases test) [
      | inr no_match ↦ stops (stops-round no_match)
      | inl match ↦ elim (Bool-cases (ltb x other)) [
        | inl side ↦ merges x _ (inl refl) (omega arith) (merges-round true match side)
        | inr side ↦ merges other _ (inr refl) (omega arith) (merges-round false match side)
      ]
    ]

  pub round-undefined :
      (fuel x : ℕ) (h : Mem) → 32 ≤ h x % 128 → coalesce_loop (suc fuel) x start h ≡ undefined
  unfolding coalesce_loop get_size bit32
  round-undefined fuel x h big = rw (ltb_of_le {a = h x % 128} {b = 32} big)

  KeepsEven-write :
      (z v : ℕ) (h : Mem) (r : Run Mem (Unit {0}))
      → OddOffset start z
      → KeepsEven start (write h z v) r
      → KeepsEven start h r
  KeepsEven-write z v h (ok _ h') odd k =
      λ y even. k y even ∙ write_ne h z v y (λ same. absurd (omega arith))
  KeepsEven-write z v h undefined odd k = k
  KeepsEven-write z v h out_of_fuel odd k = k

  KeepsEven-Round :
      (fuel x s : ℕ) (h : Mem)
      → 1 ≤ s
      → OddOffset start x
      → ((z v : ℕ)
          → OddOffset start z
          → v % 128 ≡ suc s
          → KeepsEven start (write h z v) (coalesce_loop fuel z start (write h z v)))
      → Round fuel x s h
      → KeepsEven start h (coalesce_loop (suc fuel) x start h)
  KeepsEven-Round fuel x s h pos odd later (stops e) = rw e (λ y even. refl)
  KeepsEven-Round fuel x s h pos odd later (merges z v which size e) = rw e (
      KeepsEven-write z v h (coalesce_loop fuel z start (write h z v)) (z_odd which)
        (later z v (z_odd which) size))
    where
      z_odd : (z ≡ x) ⊎ (z ≡ buddy start x s) → OddOffset start z
      z_odd (inl p) = rw p odd
      z_odd (inr p) = rw p (buddy-OddOffset start x s low pos odd)

  pub coalesce_loop-KeepsEven :
      (fuel x s : ℕ) (h : Mem)
      → 33 ≤ fuel + s
      → s ≤ 32
      → h x % 128 ≡ s
      → 1 ≤ s
      → OddOffset start x
      → KeepsEven start h (coalesce_loop fuel x start h)
  coalesce_loop-KeepsEven zero x s h enough most size pos odd = absurd (omega arith)
  coalesce_loop-KeepsEven (suc f) x s h enough most size pos odd = elim (lt_cases s 32) [
    | inr big ↦ rw (round-undefined f x h (omega arith)) tt
    | inl small ↦
        KeepsEven-Round f x s h pos odd
          (λ z v z_odd grown.
            coalesce_loop-KeepsEven f z (suc s) (write h z v) (omega arith) (omega arith)
              (rw (write_self h z v) grown) (omega arith) z_odd)
          (Round-total f x s h small size)
  ]

  -- A first byte that reads as size 0 ends the loop at once: its buddy is the header itself.
  pub coalesce_loop-stops :
      (fuel a : ℕ) (h : Mem)
      → start ≤ a
      → a + 1 < 2 ^ 32
      → (a - start) % 2 ≡ 0
      → h (a + 1) % 128 ≡ 0
      → h a % 128 ≢ 0
      → coalesce_loop (suc fuel) (a + 1) start h ≡ ok tt h
  coalesce_loop-stops fuel a h above room even zero_size real =
      stops-round fuel (a + 1) 0 h (omega arith) zero_size (rw at_header (ground arith))
    where
      offset : sub32 (a + 1) start ≡ a + 1 - start
      offset = omega arith

      at_header : buddy start (a + 1) 0 ≡ a
      at_header = unfold buddy in rw offset (rw xor-one (omega arith))
