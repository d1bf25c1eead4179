-- ===== src/Process/Freed.antt =====
-- What the two calls of `kernel_free` for an ended process do. The blocks are not headers, so the
-- first byte at each address is read as one; that of a descriptor is the lowest of its `eip`.
use mathlib.Core.Path.{fun_ext}
use native.Mathlib.Nat.{zero-add}
use loof_os.Base.{
  ℕ, zero, suc, ◌+◌, ◌/◌, ◌%◌, ◌^◌, ◌<◌, ◌≤◌, ◌≡◌, ◌≢◌, ◌⊎◌, inl, inr, refl, sym, ap, ◌∙◌, subst,
  arith, List, [], ◌∷◌, length, Bool, true, false, ◌==◌, ◌&&◌, ==_of_eq, ==_of_ne, add32, sub32,
  bit_xor, some,
}
use loof_os.Machine.{Mem, write, ok}
use loof_os.Machine.Memory.{write_ne, bit32-ok}
use loof_os.State.{Kernel}
use loof_os.State.Descriptors.{put_descs, AllDescs, AllApart, Keeps, take_descs-put_descs}
use loof_os.Alloc.{
  kernel_heap, get_size, get_used, set_used, coalesce_loop, coalesce_block, memory_free,
  kernel_free,
}
use loof_os.Process.{walk, taken_back, on_descs, free_process}
use loof_os.Process.Ring.{Procs, Chain, All}

-- The byte before `a` with its top bit clear.
abbrev pub cleared : ℕ → Mem → Mem
cleared a h = write h (sub32 a 1) (h (sub32 a 1) % 128)

abbrev pub buddy_of : ℕ → Mem → ℕ
buddy_of a h = add32 (bit_xor (sub32 a kernel_heap.start) (2 ^ (h a % 128))) kernel_heap.start

-- The byte at `a`, read as a header, is of a block that can have a buddy, and that one is in use or
-- of another size.
pub record HasNoBuddy (a : ℕ) (h : Mem) : Type 0 where
  pub order : h a % 128 < 32
  pub no_buddy : (h (buddy_of a h) / 128 % 2 ≢ 0) ⊎ (h (buddy_of a h) % 128 ≢ h a % 128)

and_false : (b : Bool) → (b && false) ≡ false
and_false true = refl
and_false false = refl

-- Merging ends at such an address at once.
coalesce_loop-stops :
    (fuel a : ℕ) (h : Mem)
    → HasNoBuddy a h
    → coalesce_loop (suc fuel) a kernel_heap.start h ≡ ok tt h
unfolding coalesce_loop get_size get_used
coalesce_loop-stops fuel a h alone =
    rw (bit32-ok (h a % 128) h alone.order, test alone.no_buddy) refl
  where
    test :
        (h (buddy_of a h) / 128 % 2 ≢ 0) ⊎ (h (buddy_of a h) % 128 ≢ h a % 128)
        → ((h (buddy_of a h) / 128 % 2 == 0) && (h (buddy_of a h) % 128 == h a % 128)) ≡ false
    test (inl used) = rw (==_of_ne (h (buddy_of a h) / 128 % 2) 0 used) refl
    test (inr other) =
        rw (==_of_ne (h (buddy_of a h) % 128) (h a % 128) other)
          (and_false (h (buddy_of a h) / 128 % 2 == 0))

-- A call of `kernel_free` at such an address clears the top bit of the byte before it.
kernel_free-cleared :
    (a : ℕ) (h : Mem) → HasNoBuddy a (cleared a h) → kernel_free a h ≡ ok tt (cleared a h)
unfolding kernel_free memory_free set_used coalesce_block
kernel_free-cleared a h alone =
    subst
      (λ (v : ℕ).
        coalesce_loop 34 a kernel_heap.start (write h (sub32 a 1) v) ≡ ok tt (cleared a h))
      (sym (zero-add (h (sub32 a 1) % 128))) (coalesce_loop-stops 33 a (cleared a h) alone)

-- The address is in no descriptor.
abbrev pub Outside : List ℕ → ℕ → Type 0
Outside [] x = Unit {0}
Outside (p ∷ ps) x = ((x < p) ⊎ (p + 85 ≤ x)) × Outside ps x

Keeps-self : (ps : List ℕ) (h : Mem) → Keeps ps h h
Keeps-self [] h = tt
Keeps-self (p ∷ ps) h = ((λ x lo hi. refl), Keeps-self ps h)

Keeps-cleared :
    (ps : List ℕ) (a : ℕ) (h g : Mem)
    → Outside ps (sub32 a 1)
    → Keeps ps h g
    → Keeps ps h (cleared a g)
Keeps-cleared [] a h g out keeps = tt
Keeps-cleared (p ∷ ps) a h g out keeps = (
  (λ x lo hi.
      write_ne g (sub32 a 1) (g (sub32 a 1) % 128) x (λ same. inside p x lo hi same out.0)
      ∙ keeps.0 x lo hi),
  Keeps-cleared ps a h g out.1 keeps.1,
)
  where
    inside :
        (p x : ℕ) → p ≤ x → x < p + 85 → x ≡ sub32 a 1 → (sub32 a 1 < p) ⊎ (p + 85 ≤ sub32 a 1) → ⊥
    inside p x lo hi same (inl lt) = absurd (omega (arith, lo, same, lt))
    inside p x lo hi same (inr le) = absurd (omega (arith, hi, same, le))

-- The walk round the ring finds its processes.
walk-Chain :
    (rounds : ℕ) (f : Procs) (c x : ℕ) (xs : List ℕ)
    → Chain f x xs c
    → All (λ q. q ≢ c) (x ∷ xs)
    → length (x ∷ xs) < rounds
    → walk rounds f c x ≡ some (x ∷ xs)
unfolding walk
walk-Chain zero f c x xs chain others enough = absurd (omega (arith, enough))
walk-Chain (suc zero) f c x xs chain others enough = absurd (omega (arith, enough))
walk-Chain (suc (suc rounds)) f c x [] chain others enough =
    rw (==_of_ne x c others.0, chain.0, ==_of_eq {a = c} {b = c} refl) refl
walk-Chain (suc (suc rounds)) f c x (y ∷ ys) chain others enough =
    rw
      (
        ==_of_ne x c others.0,
        chain.0,
        walk-Chain (suc rounds) f c y ys chain.2 others.1 (omega (arith, enough)),
      )
      refl

module _ (k : Kernel) (ps : List ℕ) where
  -- The memory with the descriptors' bytes.
  abbrev pub laid : Mem
  laid = put_descs ps k.procs k.mem

  abbrev pub stack_freed : Mem
  stack_freed = cleared (k.procs k.current_process).frame.esp laid

  abbrev pub freed : Mem
  freed = cleared k.current_process stack_freed

  -- The descriptors of the queue have bytes of their own, neither address freed has a buddy, and
  -- neither has its header's byte in a descriptor.
  pub record CanFree : Type 0 where
    pub descs : AllDescs k.procs ps
    pub apart : AllApart ps
    pub stack : HasNoBuddy (k.procs k.current_process).frame.esp stack_freed
    pub stack_outside : Outside ps (sub32 (k.procs k.current_process).frame.esp 1)
    pub desc : HasNoBuddy k.current_process freed
    pub desc_outside : Outside ps (sub32 k.current_process 1)

-- Then the two calls clear a bit each, and no descriptor changes.
pub free_process-freed :
    (rounds : ℕ) (k : Kernel) (n : ℕ) (xs : List ℕ)
    → Chain k.procs k.current_process (n ∷ xs) k.current_process
    → All (λ q. q ≢ k.current_process) (n ∷ xs)
    → length (n ∷ xs) < rounds
    → CanFree k (k.current_process ∷ n ∷ xs)
    → free_process rounds k.current_process k
      ≡ ok tt (record k { mem = freed k (k.current_process ∷ n ∷ xs) })
unfolding free_process on_descs taken_back
free_process-freed rounds k n xs chain others enough can =
    rw
      (
        chain.0,
        walk-Chain rounds k.procs k.current_process n xs chain.2 others enough,
        kernel_free-cleared (k.procs k.current_process).frame.esp
            (laid k (k.current_process ∷ n ∷ xs)) can.stack,
        kernel_free-cleared k.current_process (stack_freed k (k.current_process ∷ n ∷ xs)) can.desc,
      )
      (ap
        (λ (f : Procs). ok tt (record k { mem = freed k (k.current_process ∷ n ∷ xs); procs = f }))
        (fun_ext (
          take_descs-put_descs (k.current_process ∷ n ∷ xs) k.procs k.mem
            (freed k (k.current_process ∷ n ∷ xs)) can.descs can.apart
            (Keeps-cleared (k.current_process ∷ n ∷ xs) k.current_process
              (laid k (k.current_process ∷ n ∷ xs)) (stack_freed k (k.current_process ∷ n ∷ xs))
              can.desc_outside
              (Keeps-cleared (k.current_process ∷ n ∷ xs) (k.procs k.current_process).frame.esp
                (laid k (k.current_process ∷ n ∷ xs)) (laid k (k.current_process ∷ n ∷ xs))
                can.stack_outside
                (Keeps-self (k.current_process ∷ n ∷ xs) (laid k (k.current_process ∷ n ∷ xs))))))))
