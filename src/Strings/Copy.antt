-- ===== src/Strings/Copy.antt =====
-- `memset` and `memcpy`.
use loof_os.Base.{
  ℕ, zero, suc, ◌+◌, ◌%◌, ◌^◌, ◌≤◌, ◌<◌, ◌≡◌, refl, ◌∙◌, ◌⊎◌, inl, inr, arith, add32, u8, lt_cases,
  subst,
}
use loof_os.Machine.{Mem, Run, ok, undefined, out_of_fuel, write}
use loof_os.Machine.Memory.{write_self, write_ne}
use loof_os.Strings.{load_byte, store_byte, memset_loop, memset, memcpy_loop, memcpy}

-- The bytes from `a` on are those of `val`, by their number, and no others have changed.
pub record Written (a len : ℕ) (val : ℕ → ℕ) (h h' : Mem) : Type 0 where
  bytes : (i : ℕ) → i < len → h' (a + i) ≡ val i
  others : (x : ℕ) → (x < a) ⊎ (a + len ≤ x) → h' x ≡ h x

abbrev pub Writes : ℕ → ℕ → ℕ → (ℕ → ℕ) → Mem → Run Mem ℕ → Type 0
Writes r a len val h (ok v h') = (v ≡ r) × Written a len val h h'
Writes r a len val h undefined = ⊥
Writes r a len val h out_of_fuel = ⊥

-- The rounds from `i` on.
record Tail (a i left : ℕ) (val : ℕ → ℕ) (h h' : Mem) : Type 0 where
  bytes : (j : ℕ) → i ≤ j → j < i + left → h' (a + j) ≡ val j
  others : (x : ℕ) → (x < a + i) ⊎ (a + i + left ≤ x) → h' x ≡ h x

Tail-suc :
    (a i left : ℕ) (val : ℕ → ℕ) (h h' : Mem)
    → Tail a (i + 1) left val (write h (a + i) (val i)) h'
    → Tail a i (suc left) val h h'
Tail-suc a i left val h h' t = record {
  bytes = λ j lo hi. elim (lt_cases i j) [
    | inl later ↦ t.bytes j (omega (arith, later)) (omega (arith, hi))
    | inr first ↦
        subst (λ m. h' (a + m) ≡ val m) (at j lo first)
          (t.others (a + i) (inl (omega arith)) ∙ write_self h (a + i) (val i))
  ];
  others = λ x out.
      t.others x (ground (arith, out)) ∙ write_ne h (a + i) (val i) x (ground (arith, out));
}
  where
    at : (j : ℕ) → i ≤ j → j ≤ i → i ≡ j
    at j lo first = omega arith

Tail-none : (a i : ℕ) (val : ℕ → ℕ) (h : Mem) → Tail a i 0 val h h
Tail-none a i val h = record {
  bytes = λ j lo hi. absurd (omega (arith, lo, hi));
  others = λ x out. refl;
}

Written-of_Tail :
    (a len : ℕ) (val : ℕ → ℕ) (h h' : Mem) → Tail a 0 len val h h' → Written a len val h h'
Written-of_Tail a len val h h' t = record {
  bytes = λ i lt. t.bytes i (omega arith) (omega (arith, lt));
  others = λ x out. t.others x (ground (arith, out));
}

module _ (b c : ℕ) where
  memset_loop-Tail :
      (left i : ℕ) (h : Mem)
      → b + i + left ≤ 2 ^ 32
      → (h' : Mem) × (memset_loop left i b c h ≡ ok tt h') × Tail b i left (λ j. u8 c) h h'
  unfolding memset_loop store_byte
  memset_loop-Tail zero i h room = (h, refl, Tail-none b i (λ j. u8 c) h)
  memset_loop-Tail (suc left) i h room =
      let rest = memset_loop-Tail left (i + 1) (write h (b + i) (u8 c)) (omega (arith, room)) in
      (rest.0, rw at rest.1, Tail-suc b i left (λ j. u8 c) h rest.0 rest.2)
    where
      at : add32 b i ≡ b + i
      at = omega (arith, room)

  -- Within the address space, `memset` returns its first argument, the `len` bytes from there on are
  -- the low byte of `c`, and no other byte changes.
  pub memset-Writes :
      (len : ℕ) (h : Mem) → b + len ≤ 2 ^ 32 → Writes b b len (λ j. u8 c) h (memset b c len h)
  unfolding memset
  memset-Writes len h room =
      let run = memset_loop-Tail len 0 h (omega (arith, room)) in
      rw run.1 (refl, Written-of_Tail b len (λ j. u8 c) h run.0 run.2)

module _ (dst src num : ℕ) (h₀ : Mem) (dst_room : dst + num ≤ 2 ^ 32)
    (src_room : src + num ≤ 2 ^ 32) (forward : (dst ≤ src) ⊎ (src + num ≤ dst)) where
  memcpy_loop-Tail :
      (left i : ℕ) (h : Mem)
      → i + left ≡ num
      → ((j : ℕ) → i ≤ j → j < num → h (src + j) ≡ h₀ (src + j))
      → (h' : Mem) × (memcpy_loop left i dst src h ≡ ok tt h')
        × Tail dst i left (λ j. h₀ (src + j) % 256) h h'
  unfolding memcpy_loop store_byte load_byte
  memcpy_loop-Tail zero i h count unread = (h, refl, Tail-none dst i (λ j. h₀ (src + j) % 256) h)
  memcpy_loop-Tail (suc left) i h count unread =
      let rest =
        memcpy_loop-Tail left (i + 1) (write h (dst + i) (h₀ (src + i) % 256))
          (omega (arith, count))
          (λ j lo hi.
            write_ne h (dst + i) (h₀ (src + i) % 256) (src + j)
              (ground (arith, lo, hi, count, forward))
            ∙ unread j (omega (arith, lo)) hi) in
      (
        rest.0,
        rw (from, to, unread i (omega arith) (omega (arith, count))) rest.1,
        Tail-suc dst i left (λ j. h₀ (src + j) % 256) h rest.0 rest.2,
      )
    where
      from : add32 src i ≡ src + i
      from = omega (arith, src_room, count)

      to : add32 dst i ≡ dst + i
      to = omega (arith, dst_room, count)

  -- Within the address space, and unless the destination starts inside the source: `memcpy` returns
  -- the destination, whose bytes are then those that the source had, and no other byte changes.
  pub memcpy-Writes : Writes dst dst num (λ j. h₀ (src + j) % 256) h₀ (memcpy dst src num h₀)
  unfolding memcpy
  memcpy-Writes =
      let run = memcpy_loop-Tail num 0 h₀ (omega arith) (λ j lo hi. refl) in
      rw run.1 (refl, Written-of_Tail dst num (λ j. h₀ (src + j) % 256) h₀ run.0 run.2)
