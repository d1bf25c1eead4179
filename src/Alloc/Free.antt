-- ===== src/Alloc/Free.antt =====
-- `memory_free`, as it is written: the header's bit is cleared, and `coalesce_block` is given the
-- caller's address, which is not a header's.
use native.Mathlib.Nat.{zero-add}
use loof_os.Base.{
  ℕ, ◌+◌, ◌%◌, ◌^◌, ◌≤◌, ◌<◌, ◌≡◌, ◌≢◌, inl, inr, refl, sym, subst, ap, ◌∙◌, true, false, List, [],
  ◌∷◌, arith, lt_cases, Bool-cases, eq_cases, if◌then◌else◌, ◌==◌, ==_of_eq, ==_of_lt, sub32,
}
use loof_os.Machine.{Mem, write, Run, ok, undefined, out_of_fuel}
use loof_os.Machine.Memory.{write_self, write_ne}
use loof_os.Alloc.{HeapSpec, set_used, coalesce_block, memory_free}
use loof_os.Alloc.Blocks.{Block, block, header, header_size, Tiles, At, one-le-two_pow, Tiles-le}
use loof_os.Alloc.Aligned.{IsAligned}
use loof_os.Alloc.Contract.{At-le}
use loof_os.Alloc.Heap.{IsHeap, ok-state}
use loof_os.Alloc.Odd.{
  KeepsEven, two_pow-even, coalesce_loop-KeepsEven, coalesce_loop-stops, round-undefined,
}

-- The blocks once the one at `q` is given back.
unfoldable pub release : ℕ → ℕ → List Block → List Block
release q a [] = []
release q a (b ∷ bs) =
    let rest = release q (a + 2 ^ b.size) bs in if a == q then block b.size false ∷ bs else b ∷ rest

-- The run ends, and where it returns, the blocks are those of `bs`.
abbrev pub Leaves : ℕ → List Block → ℕ → Run Mem (Unit {0}) → Type 0
Leaves start bs e (ok _ h') = Tiles h' start bs e
Leaves start bs e undefined = Unit {0}
Leaves start bs e out_of_fuel = ⊥

module _ (start e : ℕ) (h h' : Mem) where
  -- Widths are even, so every header is at an even offset.
  next_even : (a s : ℕ) → 3 ≤ s → (a + start) % 2 ≡ 0 → (a + 2 ^ s + start) % 2 ≡ 0
  next_even a s large even = omega (arith, two_pow-even s (omega arith))

  Tiles-even :
      (a : ℕ) (bs : List Block)
      → (a + start) % 2 ≡ 0
      → Tiles h a bs e
      → ((y : ℕ) → a ≤ y → (y + start) % 2 ≡ 0 → h' y ≡ h y)
      → Tiles h' a bs e
  Tiles-even a [] even t same = t
  Tiles-even a (b ∷ bs) even t same = (
    same a (omega arith) even ∙ t.0,
    t.1,
    t.2,
    Tiles-even (a + 2 ^ b.size) bs (next_even a b.size t.1 even) t.3
        (λ y lo y_even. same y (omega arith) y_even),
  )

  Tiles-release :
      (q : ℕ) (b : Block) (a : ℕ) (bs : List Block)
      → (a + start) % 2 ≡ 0
      → Tiles h a bs e
      → At q b a bs
      → ((y : ℕ) → (y + start) % 2 ≡ 0 → h' y ≡ write h q b.size y)
      → Tiles h' a (release q a bs) e
  unfolding release
  Tiles-release q b a [] even t here same = absurd here
  Tiles-release q b a (c ∷ bs) even t (inl (at, is)) same =
      rw (==_of_eq {a = a} {b = q} (omega arith)) (
        same a even
            ∙ subst (λ x. write h x b.size a ≡ c.size) (sym at)
                (write_self h a b.size ∙ ap (λ (x : Block). x.size) is),
        t.1,
        t.2,
        Tiles-even (a + 2 ^ c.size) bs (next_even a c.size t.1 even) t.3 (λ y lo y_even.
            same y y_even ∙ write_ne h q b.size y (omega (arith, one-le-two_pow c.size))),
      )
  Tiles-release q b a (c ∷ bs) even t (inr here) same =
      rw
        (==_of_lt {a = a} {b = q}
          (omega (arith, one-le-two_pow c.size, At-le q b (a + 2 ^ c.size) bs here)))
        (
          same a even
              ∙ write_ne h q b.size a
                  (omega (arith, one-le-two_pow c.size, At-le q b (a + 2 ^ c.size) bs here))
              ∙ t.0,
          t.1,
          t.2,
          Tiles-release q b (a + 2 ^ c.size) bs (next_even a c.size t.1 even) t.3 here same,
        )

IsAligned-release :
    (start q a : ℕ) (bs : List Block) → IsAligned start a bs → IsAligned start a (release q a bs)
unfolding release
IsAligned-release start q a [] p = p
IsAligned-release start q a (b ∷ bs) p = elim (Bool-cases (a == q)) [
  | inl hit ↦ rw hit p
  | inr miss ↦ rw miss (p.0, IsAligned-release start q (a + 2 ^ b.size) bs p.1)
]

-- Where a block of the list stands: its header, its alignment and its room.
record Placed (h : Mem) (start e q : ℕ) (b : Block) : Type 0 where
  head : h q ≡ header b
  large : 3 ≤ b.size
  small : b.size < 32
  even : (q + start) % 2 ≡ 0
  inside : (start ≤ q) × (q + 2 ^ b.size ≤ e)

placed :
    (h : Mem) (start e q : ℕ) (b : Block) (a : ℕ) (bs : List Block)
    → (a + start) % 2 ≡ 0
    → start ≤ a
    → Tiles h a bs e
    → At q b a bs
    → Placed h start e q b
placed h start e q b a [] even low t here = absurd here
placed h start e q b a (c ∷ bs) even low t (inl (at, is)) =
    subst (λ x. Placed h start e x b) (sym at)
      (subst (Placed h start e a) (sym is) (record {
        head = t.0;
        large = t.1;
        small = t.2;
        even = even;
        inside = (low, Tiles-le h (a + 2 ^ c.size) bs e t.3);
      }))
placed h start e q b a (c ∷ bs) even low t (inr here) =
    placed h start e q b (a + 2 ^ c.size) bs (next_even start e h h a c.size t.1 even) (omega arith)
      t.3 here

module _ (spec : HeapSpec) (e : ℕ) (bs : List Block) (h : Mem) (heap : IsHeap spec e bs h) (q : ℕ)
    (b : Block) (live : b.used ≡ true) (here : At q b spec.start bs) where
  at : Placed h spec.start e q b
  at = placed h spec.start e q b spec.start bs (omega arith) (omega arith) heap.tiles here

  -- The memory once the header's bit is cleared.
  abbrev cleared : Mem
  cleared = write h q b.size

  enters : memory_free spec (q + 1) h ≡ coalesce_block (q + 1) spec.start cleared
  unfolding memory_free set_used
  enters =
      rw (back, at.head, header_size b at.small)
        (ap (λ v. coalesce_block (q + 1) spec.start (write h q v)) (zero-add b.size))
    where
      back : sub32 (q + 1) 1 ≡ q
      back = omega (arith, at.inside, heap.below, heap.room, one-le-two_pow b.size)

  start-lt : spec.start < 2 ^ 32
  start-lt = omega (arith, at.inside, heap.below, heap.room)

  data_odd : (q + 1 + spec.start) % 2 ≡ 1
  data_odd = omega (arith, at.even)

  room : q + 1 < 2 ^ 32
  room = omega (arith, at.inside, heap.below, heap.room, one-le-two_pow b.size)

  sized : cleared q % 128 ≢ 0
  sized zero_size = absurd (omega (arith, write_self h q b.size, at.large, at.small))

  -- What `coalesce_block` does to the caller's bytes leaves every header alone.
  kept : KeepsEven spec.start cleared (coalesce_block (q + 1) spec.start cleared)
  unfolding coalesce_block
  kept = elim (eq_cases (cleared (q + 1) % 128) 0) [
    | inl zero_size ↦
        rw
          (coalesce_loop-stops spec.start start-lt 33 q cleared at.inside.0 room
            (omega (arith, at.even, at.inside)) zero_size sized)
          (λ y even. refl)
    | inr (inl impossible) ↦ absurd (omega arith)
    | inr (inr pos) ↦ elim (lt_cases 32 (cleared (q + 1) % 128)) [
      | inl big ↦ rw (round-undefined spec.start start-lt 33 (q + 1) cleared (omega arith)) tt
      | inr most ↦
          coalesce_loop-KeepsEven spec.start start-lt 34 (q + 1) (cleared (q + 1) % 128) cleared
            (omega arith) most refl pos data_odd
    ]
  ]

  Leaves-of_KeepsEven :
      (r : Run Mem (Unit {0}))
      → KeepsEven spec.start cleared r
      → Leaves spec.start (release q spec.start bs) e r
  Leaves-of_KeepsEven (ok _ h') k =
      Tiles-release spec.start e h h' q b spec.start bs (omega arith) heap.tiles here k
  Leaves-of_KeepsEven undefined k = k
  Leaves-of_KeepsEven out_of_fuel k = k

  -- `memory_free` of a block in use ends, and if it returns, the blocks are as before, except that
  -- this one is free. No block is ever merged with its buddy.
  pub memory_free-Leaves :
      Leaves spec.start (release q spec.start bs) e (memory_free spec (q + 1) h)
  memory_free-Leaves =
      rw enters (Leaves-of_KeepsEven (coalesce_block (q + 1) spec.start cleared) kept)

  -- For a heap whose last block ends at its inclusive end, as the kernel's does, the whole invariant
  -- survives.
  IsHeap-of_KeepsEven :
      (r : Run Mem (Unit {0})) (h' : Mem)
      → e ≡ spec.last
      → (e + spec.start) % 2 ≡ 0
      → r ≡ ok tt h'
      → KeepsEven spec.start cleared r
      → IsHeap spec e (release q spec.start bs) h'
  IsHeap-of_KeepsEven (ok _ g) h' flush even done k =
      subst (IsHeap spec e (release q spec.start bs)) (ok-state done) (record {
        tiles = Tiles-release spec.start e h g q b spec.start bs (omega arith) heap.tiles here k;
        aligned = IsAligned-release spec.start q spec.start bs heap.aligned;
        below = heap.below;
        room = heap.room;
        quiet = λ x lo hi.
            k x (omega arith)
            ∙ write_ne h q b.size x
                (λ same. absurd (omega (arith, at.inside, one-le-two_pow b.size)))
            ∙ heap.quiet x lo hi;
      })
  IsHeap-of_KeepsEven undefined h' flush even done k = cc
  IsHeap-of_KeepsEven out_of_fuel h' flush even done k = cc

  pub memory_free-IsHeap :
      (h' : Mem)
      → e ≡ spec.last
      → (e + spec.start) % 2 ≡ 0
      → memory_free spec (q + 1) h ≡ ok tt h'
      → IsHeap spec e (release q spec.start bs) h'
  memory_free-IsHeap h' flush even done =
      IsHeap-of_KeepsEven (coalesce_block (q + 1) spec.start cleared) h' flush even
        (sym enters ∙ done) kept
