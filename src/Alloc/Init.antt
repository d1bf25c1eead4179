-- ===== src/Alloc/Init.antt =====
-- `init_memory`: the first blocks of a heap are the binary digits of its length.
use native.Mathlib.Nat.{pow-le-pow_right}
use native.Mathlib.Numerals.{add-one}
use loof_os.Base.{
  ℕ, zero, suc, ◌+◌, ◌-◌, ◌*◌, ◌/◌, ◌%◌, ◌^◌, ◌≤◌, ◌<◌, ◌≡◌, ◌⊎◌, inl, inr, refl, subst, ◌∙◌, ap,
  false, List, [], ◌∷◌, arith, ltb, ltb_of_lt, ==_of_eq, ==_of_lt, lt_cases, if◌then◌else◌, ◌==◌,
  Bool-cases, pow-suc, add32, sub32, u8, add32-eq-add,
}
use loof_os.Machine.{Mem, write, Run, ok, pure, and_then, ◌>>=◌, bit32}
use loof_os.Machine.Memory.{write_self, write_ne, bit32-ok}
use loof_os.Alloc.{
  HeapSpec, kernel_heap, set_size, set_used, new_block, init_loop, init_memory, init_kernel_heap,
}
use loof_os.Alloc.Blocks.{Block, block, Tiles, SameOutside}
use loof_os.Alloc.Split.{fresh_header}
use loof_os.Alloc.Heap.{IsHeap}

-- A free block for each binary digit 1 of `count`, the lowest first, from size `s` on.
unfoldable pub digit_blocks : ℕ → ℕ → ℕ → List Block
digit_blocks zero s count = []
digit_blocks (suc digits) s count =
    let rest = digit_blocks digits (s + 1) (count / 2) in
    if count % 2 == 1 then block s false ∷ rest else rest

digit_blocks-zero : (digits s : ℕ) → digit_blocks digits s 0 ≡ []
unfolding digit_blocks
digit_blocks-zero zero s = refl
digit_blocks-zero (suc d) s = digit_blocks-zero d (s + 1)

pub record Filled (h : Mem) (a : ℕ) (bs : List Block) (e : ℕ) (r : Run Mem (Unit {0}))
    : Type 0 where
  pub after : Mem
  pub returns : r ≡ ok tt after
  pub tiles : Tiles after a bs e
  pub same : SameOutside a e h after

new_block-ok :
    (h : Mem) (a s : ℕ)
    → s < 32
    → a + 2 ^ s < 2 ^ 32
    → new_block a s h ≡ ok (a + 2 ^ s) (write h a s)
unfolding new_block set_size set_used bit32
new_block-ok h a s small room =
    ap (λ r. and_then r (λ _. bit32 s >>= λ d. pure (add32 a d))) (fresh_header h a s (omega arith))
    ∙ rw (bit32-ok s (write h a s) small, add32-eq-add a (2 ^ s) room) refl

-- What one round leaves to the others: half of the count, at twice the width.
half_count : (count s : ℕ) → count * 2 ^ s ≡ count / 2 * 2 ^ (s + 1) + count % 2 * 2 ^ s
half_count count s = rw add-one (
    omega (
      arith,
      ap (λ (t : ℕ). count / 2 * t) (pow-suc 2 s),
      ap (λ (t : ℕ). t * 2 ^ s) (div_mod count),
    ))
  where
    div_mod : (m : ℕ) → m ≡ m / 2 * 2 + m % 2
    div_mod m = omega arith

width-le : (count w : ℕ) → 0 < count → w ≤ count * w
width-le count w h = grind arith

module _ (last : ℕ) (room : last + 1 < 2 ^ 32) where
  size-lt : (a count s : ℕ) → a + count * 2 ^ s ≤ last + 1 → 0 < count → s < 32
  size-lt a count s fit some_left = elim (lt_cases s 32) [
    | inl lt ↦ lt
    | inr le ↦
        let grown : 2 ^ 32 ≤ 2 ^ s = pow-le-pow_right (omega arith) le in
        absurd (omega (arith, width-le count (2 ^ s) some_left))
  ]

  init_done : (f s a : ℕ) (h : Mem) → init_loop (suc f) last a 0 s h ≡ ok tt h
  unfolding init_loop
  init_done f s a h = elim (Bool-cases (ltb a last)) [ inl t ↦ rw t | inr t ↦ rw t ]

  module _ (f count s a : ℕ) (h : Mem) (small : s < 32) (low : a < last)
      (some_left : 0 < count) where
    init_skip :
        count % 2 ≡ 0
        → init_loop (suc f) last a count s h ≡ init_loop f last a (count / 2) (s + 1) h
    unfolding init_loop
    init_skip even =
        rw
          (
            ltb_of_lt low,
            ltb_of_lt some_left,
            ==_of_lt {a = count % 2} {b = 1} (omega arith),
            next_size,
          )
          refl
      where
        next_size : u8 (s + 1) ≡ s + 1
        next_size = omega arith

    init_new :
        count % 2 ≡ 1
        → a + 2 ^ s < 2 ^ 32
        → init_loop (suc f) last a count s h
          ≡ init_loop f last (a + 2 ^ s) (count / 2) (s + 1) (write h a s)
    unfolding init_loop
    init_new odd fit =
        rw
          (
            ltb_of_lt low,
            ltb_of_lt some_left,
            ==_of_eq {a = count % 2} {b = 1} odd,
            new_block-ok h a s small fit,
            next_size,
          )
          refl
      where
        next_size : u8 (s + 1) ≡ s + 1
        next_size = omega arith

  module _ (f count s a : ℕ) (h : Mem) (large : 3 ≤ s) (fit : a + count * 2 ^ s ≤ last + 1)
      (some_left : 0 < count) where
    wide : 8 ≤ 2 ^ s
    wide = let p : 2 ^ 3 ≤ 2 ^ s = pow-le-pow_right (omega arith) large in omega arith

    low : a < last
    low = omega (arith, wide, width-le count (2 ^ s) some_left)

    small : s < 32
    small = size-lt a count s fit some_left

    Filled-skip :
        count % 2 ≡ 0
        → Filled h a
            (digit_blocks f (s + 1) (count / 2))
            (a + count / 2 * 2 ^ (s + 1))
            (init_loop (suc f) last a (count / 2) (s + 1) h)
        → Filled h a
            (digit_blocks (suc f) s count)
            (a + count * 2 ^ s)
            (init_loop (suc (suc f)) last a count s h)
    unfolding digit_blocks
    Filled-skip even rest = record {
      after = rest.after;
      returns = init_skip (suc f) count s a h small low some_left even ∙ rest.returns;
      tiles =
          rw (==_of_lt {a = count % 2} {b = 1} (omega arith))
            (subst (Tiles rest.after a (digit_blocks f (s + 1) (count / 2))) whole rest.tiles);
      same = λ x out. rest.same x (rw whole out);
    }
      where
        whole : a + count / 2 * 2 ^ (s + 1) ≡ a + count * 2 ^ s
        whole = omega (arith, half_count count s, ap (λ (t : ℕ). t * 2 ^ s) even)

    Filled-new :
        count % 2 ≡ 1
        → Filled
            (write h a s)
            (a + 2 ^ s)
            (digit_blocks f (s + 1) (count / 2))
            (a + 2 ^ s + count / 2 * 2 ^ (s + 1))
            (init_loop (suc f) last (a + 2 ^ s) (count / 2) (s + 1) (write h a s))
        → Filled h a
            (digit_blocks (suc f) s count)
            (a + count * 2 ^ s)
            (init_loop (suc (suc f)) last a count s h)
    unfolding digit_blocks
    Filled-new odd rest = record {
      after = rest.after;
      returns =
          init_new (suc f) count s a h small low some_left odd
            (omega (arith, width-le count (2 ^ s) some_left))
          ∙ rest.returns;
      tiles = rw (==_of_eq {a = count % 2} {b = 1} odd) (
        rest.same a (inl (omega (arith, wide))) ∙ write_self h a s,
        large,
        small,
        subst (Tiles rest.after (a + 2 ^ s) (digit_blocks f (s + 1) (count / 2))) whole rest.tiles,
      );
      same = λ x out.
          rest.same x (outer x out)
          ∙ write_ne h a s x (ground (arith, wide, width-le count (2 ^ s) some_left));
    }
      where
        whole : a + 2 ^ s + count / 2 * 2 ^ (s + 1) ≡ a + count * 2 ^ s
        whole = omega (arith, half_count count s, ap (λ (t : ℕ). t * 2 ^ s) odd)

        outer :
            (x : ℕ)
            → (x < a) ⊎ (a + count * 2 ^ s ≤ x)
            → (x < a + 2 ^ s) ⊎ (a + 2 ^ s + count / 2 * 2 ^ (s + 1) ≤ x)
        outer x out = ground (arith, whole)

    half_lt : count < 2 ^ suc f → count / 2 < 2 ^ f
    half_lt few = omega (arith, pow-suc 2 f)

    half_fit_skip : a + count / 2 * 2 ^ (s + 1) ≤ last + 1
    half_fit_skip = omega (arith, half_count count s)

    half_fit_new : count % 2 ≡ 1 → a + 2 ^ s + count / 2 * 2 ^ (s + 1) ≤ last + 1
    half_fit_new odd = omega (arith, half_count count s, ap (λ (t : ℕ). t * 2 ^ s) odd)

  parity : (m : ℕ) → (m % 2 ≡ 1) ⊎ (m % 2 ≡ 0)
  parity m = grind arith

  pub init_loop-Filled :
      (fuel count s a : ℕ) (h : Mem)
      → count < 2 ^ fuel
      → 3 ≤ s
      → a + count * 2 ^ s ≤ last + 1
      → Filled h a
          (digit_blocks fuel s count)
          (a + count * 2 ^ s)
          (init_loop (suc fuel) last a count s h)
  init_loop-Filled fuel zero s a h few large fit = record {
    after = h;
    returns = init_done fuel s a h;
    tiles = rw digit_blocks-zero (omega arith);
    same = λ x out. refl;
  }
  init_loop-Filled zero (suc c) s a h few large fit = absurd (omega arith)
  init_loop-Filled (suc f) (suc c) s a h few large fit = elim (parity (suc c)) [
    | inl odd ↦ Filled-new f (suc c) s a h large fit (omega arith) odd (
        init_loop-Filled f (suc c / 2) (s + 1) (a + 2 ^ s) (write h a s)
          (half_lt f (suc c) s a h large fit (omega arith) few) (omega arith)
          (half_fit_new f (suc c) s a h large fit (omega arith) odd))
    | inr even ↦ Filled-skip f (suc c) s a h large fit (omega arith) even (
        init_loop-Filled f (suc c / 2) (s + 1) a h
          (half_lt f (suc c) s a h large fit (omega arith) few) (omega arith)
          (half_fit_skip f (suc c) s a h large fit (omega arith)))
  ]

-- The blocks of a fresh heap, and where the last of them ends: at most seven bytes are left over.
abbrev pub fresh_blocks : HeapSpec → List Block
fresh_blocks spec = digit_blocks 32 3 ((spec.last - spec.start + 1) / 8)

abbrev pub fresh_end : HeapSpec → ℕ
fresh_end spec = spec.start + (spec.last - spec.start + 1) / 8 * 8

-- `init_memory` tiles the heap with free blocks, one for each binary digit of its length in units of
-- the least block, and writes nothing outside it.
pub init_memory-Filled :
    (spec : HeapSpec) (h : Mem)
    → spec.start ≤ spec.last
    → spec.last + 1 < 2 ^ 32
    → Filled h spec.start (fresh_blocks spec) (fresh_end spec) (init_memory spec h)
unfolding init_memory
init_memory-Filled spec h order room = rw (length_of) (
    init_loop-Filled spec.last room 32 ((spec.last - spec.start + 1) / 8) 3 spec.start h
      (omega arith) (omega arith) (omega arith))
  where
    length_of : add32 (sub32 spec.last spec.start) 1 ≡ spec.last - spec.start + 1
    length_of = omega arith

fresh_kernel_blocks : fresh_blocks kernel_heap ≡ block 29 false ∷ []
unfolding digit_blocks
fresh_kernel_blocks = refl

-- The kernel's heap is one free block of 2 ^ 29 bytes, if the byte at its inclusive end reads 0.
pub init_kernel_heap-IsHeap :
    (h : Mem)
    → h kernel_heap.last ≡ 0
    → (h' : Mem) × (init_kernel_heap h ≡ ok tt h')
      × IsHeap kernel_heap kernel_heap.last (block 29 false ∷ []) h'
unfolding init_kernel_heap
init_kernel_heap-IsHeap h quiet = (fill.after, fill.returns, IsHeap-of_Filled fill)
  where
    fill :
        Filled h kernel_heap.start
          (fresh_blocks kernel_heap)
          (fresh_end kernel_heap)
          (init_memory kernel_heap h)
    fill = init_memory-Filled kernel_heap h (omega arith) (omega arith)

    IsHeap-of_Filled :
        (f : Filled h kernel_heap.start
          (fresh_blocks kernel_heap)
          (fresh_end kernel_heap)
          (init_memory kernel_heap h))
        → IsHeap kernel_heap kernel_heap.last (block 29 false ∷ []) f.after
    IsHeap-of_Filled f = record {
      tiles = rw fresh_kernel_blocks at f.tiles;
      aligned = ((0, omega arith), tt);
      below = omega arith;
      room = omega arith;
      quiet = λ x lo hi. f.same x (inr lo) ∙ rw (exact x lo hi) quiet;
    }
      where
        exact : (x : ℕ) → kernel_heap.last ≤ x → x ≤ kernel_heap.last → x ≡ kernel_heap.last
        exact x lo hi = omega arith
