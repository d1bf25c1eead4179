-- ===== src/Strings/Compare.antt =====
-- `memcmp`.
use loof_os.Base.{
  ℕ, zero, suc, ◌+◌, ◌%◌, ◌^◌, ◌≤◌, ◌<◌, ◌≡◌, ◌≢◌, refl, ◌⊎◌, inl, inr, arith, add32, sub32,
  lt_cases, subst, eq_cases, ==_of_eq, ==_of_lt, ==_of_gt,
}
use loof_os.Machine.{Mem, Run, ok, undefined, out_of_fuel}
use loof_os.Strings.{load_byte, memcmp_loop, memcmp}

-- The bytes from number `i` to `n` are equal.
abbrev pub Agree : Mem → (t g i n : ℕ) → Type 0
Agree h t g i n = (j : ℕ) → i ≤ j → j < n → h (t + j) % 256 ≡ h (g + j) % 256

-- The first bytes that differ are those of number `j`, and `r` is the word of their difference.
pub record Differ (h : Mem) (t g i n r : ℕ) : Type 0 where
  at : ℕ
  below : at < n
  agree : Agree h t g i at
  differ : h (t + at) % 256 ≢ h (g + at) % 256
  result : r ≡ sub32 (h (t + at) % 256) (h (g + at) % 256)

abbrev pub Compares : Mem → (t g i n : ℕ) → Run Mem ℕ → Type 0
Compares h t g i n (ok r h') =
    (h' ≡ h) × (((r ≡ 0) × Agree h t g i n) ⊎ ((r ≢ 0) × Differ h t g i n r))
Compares h t g i n undefined = ⊥
Compares h t g i n out_of_fuel = ⊥

module _ (t g n : ℕ) (h : Mem) (t_room : t + n ≤ 2 ^ 32) (g_room : g + n ≤ 2 ^ 32) where
  Agree-suc :
      (i m : ℕ) → h (t + i) % 256 ≡ h (g + i) % 256 → Agree h t g (i + 1) m → Agree h t g i m
  Agree-suc i m same rest j lo hi = elim (lt_cases i j) [
    | inl later ↦ rest j (omega (arith, later)) hi
    | inr first ↦ subst (λ k. h (t + k) % 256 ≡ h (g + k) % 256) (at first) same
  ]
    where
      at : j ≤ i → i ≡ j
      at first = omega (arith, lo)

  Compares-suc :
      (i : ℕ) (r : Run Mem ℕ)
      → h (t + i) % 256 ≡ h (g + i) % 256
      → Compares h t g (i + 1) n r
      → Compares h t g i n r
  Compares-suc i (ok r h') same (kept, inl (zero_word, agree)) =
      (kept, inl (zero_word, Agree-suc i n same agree))
  Compares-suc i (ok r h') same (kept, inr (nonzero, d)) = (
    kept,
    inr (
      nonzero,
      record {
        at = d.at;
        below = d.below;
        agree = Agree-suc i d.at same d.agree;
        differ = d.differ;
        result = d.result;
      },
    ),
  )
  Compares-suc i undefined same c = c
  Compares-suc i out_of_fuel same c = c

  found :
      (i : ℕ)
      → i < n
      → h (t + i) % 256 ≢ h (g + i) % 256
      → Compares h t g i n (ok (sub32 (h (t + i) % 256) (h (g + i) % 256)) h)
  found i lt ne = (
    refl,
    inr (
      nonzero,
      record {
        at = i;
        below = lt;
        agree = λ j lo hi. absurd (omega (arith, lo, hi));
        differ = ne;
        result = refl;
      },
    ),
  )
    where
      nonzero : sub32 (h (t + i) % 256) (h (g + i) % 256) ≢ 0
      nonzero zero_word = ne (omega (arith, zero_word))

  memcmp_loop-Compares : (left i : ℕ) → i + left ≡ n → Compares h t g i n (memcmp_loop left i t g h)
  unfolding memcmp_loop load_byte
  memcmp_loop-Compares zero i count =
      (refl, inl (refl, λ j lo hi. absurd (omega (arith, lo, hi, count))))
  memcmp_loop-Compares (suc left) i count =
      rw (t_at, g_at)
        (elim (eq_cases (h (t + i) % 256) (h (g + i) % 256)) [
          | inl same ↦ rw (==_of_eq {a = h (t + i) % 256} {b = h (g + i) % 256} same) (
              Compares-suc i (memcmp_loop left (i + 1) t g h) same
                (memcmp_loop-Compares left (i + 1) (omega (arith, count))))
          | inr (inl lt) ↦
              rw (==_of_lt {a = h (t + i) % 256} {b = h (g + i) % 256} lt)
                (found i (omega (arith, count)) (λ same. absurd (omega (arith, lt, same))))
          | inr (inr gt) ↦
              rw (==_of_gt {a = h (t + i) % 256} {b = h (g + i) % 256} gt)
                (found i (omega (arith, count)) (λ same. absurd (omega (arith, gt, same))))
        ])
    where
      t_at : add32 t i ≡ t + i
      t_at = omega (arith, t_room, count)

      g_at : add32 g i ≡ g + i
      g_at = omega (arith, g_room, count)

  -- Within the address space, `memcmp` returns and changes nothing. It returns 0 exactly where all
  -- bytes agree, and else the difference of the first two that differ, which is not 0.
  pub memcmp-Compares : Compares h t g 0 n (memcmp t g n h)
  unfolding memcmp
  memcmp-Compares = memcmp_loop-Compares n 0 (omega arith)
