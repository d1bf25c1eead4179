-- ===== src/Alloc/Heap.antt =====
-- The heap's invariant, and `memory_allocate` against its contract.
use native.Mathlib.Nat.{pow-le-pow_right}
use loof_os.Base.{
  ℕ, ◌+◌, ◌-◌, ◌^◌, ◌≤◌, ◌<◌, ◌≡◌, ◌≢◌, ◌⊎◌, inr, sym, subst, ◌∙◌, true, Option, none, some, List,
  arith, add32-eq-add,
}
use loof_os.Machine.{Mem, Run, ok}
use loof_os.Alloc.{HeapSpec, memory_allocate}
use loof_os.Alloc.Blocks.{Block, Tiles, At, SameOutside, Fit, first_fit}
use loof_os.Alloc.Contract.{OnFit, Keeps, first_fit-Keeps, first_fit-found}
use loof_os.Alloc.Aligned.{Multiple, IsAligned, Aligns, first_fit-Aligns}
use loof_os.Alloc.Round.{IsOrder, round_block_size-IsOrder}
use loof_os.Alloc.Search.{IsQuiet, Searched, search_loop-Searched}

-- In memory `h` the heap of `spec` consists of the blocks `bs`, the last of which ends at `e`.
pub record IsHeap (spec : HeapSpec) (e : ℕ) (bs : List Block) (h : Mem) : Type 0 where
  pub tiles : Tiles h spec.start bs e
  pub aligned : IsAligned spec.start spec.start bs
  pub below : e ≤ spec.last + 1
  pub room : spec.last + 1 < 2 ^ 32
  pub quiet : IsQuiet h e spec.last

-- An allocation that found the block of `f`.
pub record Allocated (spec : HeapSpec) (e : ℕ) (h : Mem) (f : Fit) (r : Run Mem ℕ) : Type 0 where
  pub after : Mem
  pub returns : r ≡ ok (f.address + 1) after
  pub heap : IsHeap spec e f.blocks after
  pub same : SameOutside f.address (f.address + 2 ^ f.found) h after

abbrev pub Outcome : HeapSpec → ℕ → Mem → Option Fit → Run Mem ℕ → Type 0
Outcome spec e h none r = r ≡ ok 0 h
Outcome spec e h (some f) r = Allocated spec e h f r

module _ (spec : HeapSpec) (e : ℕ) (bs : List Block) (h : Mem) (heap : IsHeap spec e bs h) where
  Outcome-of_Searched :
      (n : ℕ) (o : Option Fit) (r : Run Mem ℕ)
      → OnFit (Aligns spec.start n spec.start) o
      → Searched h spec.start e o r
      → Outcome spec e h o r
  Outcome-of_Searched n none r al s = s
  Outcome-of_Searched n (some f) r al s = record {
    after = s.after;
    returns = s.returns;
    heap = record {
      tiles = s.tiles;
      aligned = al.aligned;
      below = heap.below;
      room = heap.room;
      quiet = λ x p q. s.same x (inr (omega (arith, s.inside))) ∙ heap.quiet x p q;
    };
    same = s.same;
  }

  module _ (size : ℕ) where
    -- On a well-formed heap, for a request that with its header is below 2^31 bytes,
    -- `memory_allocate` does what `first_fit` says for the least size whose block is larger than the
    -- request and its header.
    pub memory_allocate-Outcome :
        size + 1 < 2 ^ 31
        → (n : ℕ) × IsOrder (size + 1) n
          × Outcome spec e h (first_fit n spec.start bs) (memory_allocate spec size h)
    unfolding memory_allocate
    memory_allocate-Outcome small =
        let (n, rounded, order) = round_block_size-IsOrder (size + 1) h small in
        (
          n,
          order,
          rw (add32-eq-add size 1 (omega arith), rounded)
              (Outcome-of_Searched n (first_fit n spec.start bs) _
                (first_fit-Aligns spec.start n spec.start bs heap.aligned)
                (search_loop-Searched spec.last n e order.large heap.below heap.room h
                  (spec.last + 2 - spec.start) spec.start bs heap.tiles (omega arith) heap.quiet)),
        )

-- What an allocation leaves of a block in use, and what it may hand out beside it.
pub record Undisturbed (q w p size : ℕ) (h h' : Mem) : Type 0 where
  pub kept : (x : ℕ) → q ≤ x → x < q + w → h' x ≡ h x
  pub apart : (q + w ≤ p) ⊎ (p + size ≤ q)

module _ {S A : Type 0} {a b : A} {s t : S} where
  pub ok-value : ok a s ≡ ok b t → a ≡ b
  ok-value e = cc

  pub ok-state : ok a s ≡ ok b t → s ≡ t
  ok-state e = cc

module _ (spec : HeapSpec) (e n size p : ℕ) (h h' : Mem) (order : IsOrder (size + 1) n)
    (real : p ≢ 0) where
  Undisturbed-of_Allocated :
      (q : ℕ) (b : Block) (f : Fit)
      → p ≡ f.address + 1
      → SameOutside f.address (f.address + 2 ^ f.found) h h'
      → Keeps q b spec.start f
      → n ≤ f.found
      → Undisturbed q (2 ^ b.size) p size h h'
  Undisturbed-of_Allocated q b f at same k g =
      let grown : 2 ^ n ≤ 2 ^ f.found = pow-le-pow_right (omega arith) g in
      record {
        kept = λ x lo hi. same x (ground (arith, k.apart));
        apart = ground (arith, k.apart, order.holds);
      }

  Undisturbed-of_Outcome :
      (q : ℕ) (b : Block) (o : Option Fit) (r : Run Mem ℕ)
      → r ≡ ok p h'
      → Outcome spec e h o r
      → OnFit (Keeps q b spec.start) o
      → OnFit (λ f. n ≤ f.found) o
      → Undisturbed q (2 ^ b.size) p size h h'
  Undisturbed-of_Outcome q b none r e' out k g = absurd (real (ok-value (sym e' ∙ out)))
  Undisturbed-of_Outcome q b (some f) r e' out k g =
      Undisturbed-of_Allocated q b f (ok-value (sym e' ∙ out.returns))
        (subst (SameOutside f.address (f.address + 2 ^ f.found) h) (ok-state (sym out.returns ∙ e'))
          out.same)
        k g

-- On a well-formed heap, a successful allocation of a request that with its header is below 2^31
-- bytes changes no byte of a block in use, and hands out none of its bytes.
pub memory_allocate-Undisturbed :
    (spec : HeapSpec) (e : ℕ) (bs : List Block) (h : Mem) (size p : ℕ) (h' : Mem) (q : ℕ)
    (b : Block)
    → IsHeap spec e bs h
    → size + 1 < 2 ^ 31
    → memory_allocate spec size h ≡ ok p h'
    → p ≢ 0
    → b.used ≡ true
    → At q b spec.start bs
    → Undisturbed q (2 ^ b.size) p size h h'
memory_allocate-Undisturbed spec e bs h size p h' q b heap small done real live here =
    let (n, order, out) = memory_allocate-Outcome spec e bs h heap size small in
    Undisturbed-of_Outcome spec e n size p h h' order real q b (first_fit n spec.start bs)
      (memory_allocate spec size h) done out (first_fit-Keeps n q b live spec.start bs here)
      (first_fit-found n spec.start bs)

Multiple-of_Outcome :
    (spec : HeapSpec) (e n p : ℕ) (h h' : Mem) (o : Option Fit) (r : Run Mem ℕ)
    → p ≢ 0
    → r ≡ ok p h'
    → Outcome spec e h o r
    → OnFit (Aligns spec.start n spec.start) o
    → Multiple (spec.start + 1) n p
Multiple-of_Outcome spec e n p h h' none r real e' out al = absurd (real (ok-value (sym e' ∙ out)))
Multiple-of_Outcome spec e n p h h' (some f) r real e' out al =
    (al.multiple.0, omega (arith, ok-value (sym e' ∙ out.returns), al.multiple.1))

-- The address handed out is a multiple of the block's width, counted from the byte behind the
-- heap's first header.
pub memory_allocate-Multiple :
    (spec : HeapSpec) (e : ℕ) (bs : List Block) (h : Mem) (size p : ℕ) (h' : Mem)
    → IsHeap spec e bs h
    → size + 1 < 2 ^ 31
    → memory_allocate spec size h ≡ ok p h'
    → p ≢ 0
    → (n : ℕ) × IsOrder (size + 1) n × Multiple (spec.start + 1) n p
memory_allocate-Multiple spec e bs h size p h' heap small done real =
    let (n, order, out) = memory_allocate-Outcome spec e bs h heap size small in
    (
      n,
      order,
      Multiple-of_Outcome spec e n p h h' (first_fit n spec.start bs) (memory_allocate spec size h)
          real done out (first_fit-Aligns spec.start n spec.start bs heap.aligned),
    )
