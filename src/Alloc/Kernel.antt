-- ===== src/Alloc/Kernel.antt =====
-- The kernel's heap over time: whatever calls the kernel makes, and whatever it writes into blocks
-- that it holds, the heap stays a list of aligned blocks.
use native.Mathlib.Nat.{add-zero, mul_assoc, pow-le-pow_right}
use loof_os.Base.{
  ℕ, zero, suc, ◌+◌, ◌-◌, ◌*◌, ◌^◌, ◌≤◌, ◌<◌, ◌≡◌, ◌≢◌, inl, inr, refl, sym, subst, ap, ◌∙◌, true,
  false, Option, none, some, List, [], ◌∷◌, arith, lt_cases, pow-suc,
}
use loof_os.Machine.{Mem, write, Run, ok}
use loof_os.Machine.Memory.{write_ne}
use loof_os.Alloc.{kernel_heap, kernel_allocate, kernel_free, init_kernel_heap, memory_allocate}
use loof_os.Alloc.Blocks.{
  Block, block, Tiles, At, Fit, first_fit, one-le-two_pow, Tiles-le, Tiles-frame,
}
use loof_os.Alloc.Contract.{At-le, add_suc}
use loof_os.Alloc.Round.{IsOrder}
use loof_os.Alloc.Heap.{
  IsHeap, Outcome, memory_allocate-Outcome, memory_allocate-Multiple, ok-state,
}
use loof_os.Alloc.Init.{init_kernel_heap-IsHeap}
use loof_os.Alloc.Free.{release, memory_free-IsHeap}

abbrev pub IsKernelHeap : List Block → Mem → Type 0
IsKernelHeap bs h = IsHeap kernel_heap kernel_heap.last bs h

-- A block in use, by the address of its header.
pub record Live (h : Mem) (q : ℕ) (b : Block) : Type 0 where
  pub blocks : List Block
  pub heap : IsKernelHeap blocks h
  pub here : At q b kernel_heap.start blocks
  pub used : b.used ≡ true

-- What may happen to the kernel's memory.
pub data Step : Mem → Mem → Type 0 where
  allocates :
      {h h' : Mem} (size p : ℕ) → size + 1 < 2 ^ 31 → kernel_allocate size h ≡ ok p h' → Step h h'
  frees :
      {h h' : Mem} (q : ℕ) (b : Block) → Live h q b → kernel_free (q + 1) h ≡ ok tt h' → Step h h'
  stores :
      {h h' : Mem} (q : ℕ) (b : Block) (x v : ℕ)
      → Live h q b
      → q < x
      → x < q + 2 ^ b.size
      → h' ≡ write h x v
      → Step h h'

pub data Reach (h : Mem) : Mem → Type 0 where
  here : Reach h h
  next : {g k : Mem} → Reach h g → Step g k → Reach h k

Tiles-write :
    (h : Mem) (x v q : ℕ) (b : Block) (a : ℕ) (bs : List Block) (e : ℕ)
    → q < x
    → x < q + 2 ^ b.size
    → Tiles h a bs e
    → At q b a bs
    → Tiles (write h x v) a bs e
Tiles-write h x v q b a [] e lo hi t at = absurd at
Tiles-write h x v q b a (c ∷ bs) e lo hi t (inl at) = (
  write_ne h x v a (omega arith) ∙ t.0,
  t.1,
  t.2,
  Tiles-frame h (write h x v) (a + 2 ^ c.size) bs e t.3 (λ y lo' hi'.
      let same : 2 ^ b.size ≡ 2 ^ c.size = ap (λ (z : Block). 2 ^ z.size) at.1 in
      write_ne h x v y (omega arith)),
)
Tiles-write h x v q b a (c ∷ bs) e lo hi t (inr at) = (
  write_ne h x v a (omega (arith, At-le q b (a + 2 ^ c.size) bs at, one-le-two_pow c.size)) ∙ t.0,
  t.1,
  t.2,
  Tiles-write h x v q b (a + 2 ^ c.size) bs e lo hi t.3 at,
)

At-inside :
    (h : Mem) (q : ℕ) (b : Block) (a : ℕ) (bs : List Block) (e : ℕ)
    → Tiles h a bs e
    → At q b a bs
    → q + 2 ^ b.size ≤ e
At-inside h q b a [] e t at = absurd at
At-inside h q b a (c ∷ bs) e t (inl at) =
    let same : 2 ^ b.size ≡ 2 ^ c.size = ap (λ (z : Block). 2 ^ z.size) at.1 in
    omega (arith, Tiles-le h (a + 2 ^ c.size) bs e t.3)
At-inside h q b a (c ∷ bs) e t (inr at) = At-inside h q b (a + 2 ^ c.size) bs e t.3 at

IsHeap-of_Outcome :
    (o : Option Fit) (h h' : Mem) (bs : List Block) (p : ℕ) (r : Run Mem ℕ)
    → IsKernelHeap bs h
    → r ≡ ok p h'
    → Outcome kernel_heap kernel_heap.last h o r
    → (bs' : List Block) × IsKernelHeap bs' h'
IsHeap-of_Outcome none h h' bs p r heap done out =
    (bs, subst (IsKernelHeap bs) (ok-state (sym out ∙ done)) heap)
IsHeap-of_Outcome (some f) h h' bs p r heap done out =
    (f.blocks, subst (IsKernelHeap f.blocks) (ok-state (sym out.returns ∙ done)) out.heap)

-- Each step keeps the heap well-formed.
Step-IsHeap :
    {h h' : Mem}
    → Step h h'
    → (bs : List Block) → IsKernelHeap bs h
    → (bs' : List Block) × IsKernelHeap bs' h'
unfolding kernel_allocate kernel_free
Step-IsHeap {h} {h'} (allocates size p small done) bs heap =
    let (n, order, out) =
      memory_allocate-Outcome kernel_heap kernel_heap.last bs h heap size small in
    IsHeap-of_Outcome (first_fit n kernel_heap.start bs) h h' bs p
      (memory_allocate kernel_heap size h) heap done out
Step-IsHeap {h} {h'} (frees q b live done) bs heap = (
  release q kernel_heap.start live.blocks,
  memory_free-IsHeap kernel_heap kernel_heap.last live.blocks h live.heap q b live.used live.here h'
      refl (omega arith) done,
)
Step-IsHeap {h} {h'} (stores q b x v live lo hi e) bs heap = (
  live.blocks,
  subst (IsKernelHeap live.blocks) (sym e) (record {
    tiles = Tiles-write h x v q b _ live.blocks _ lo hi live.heap.tiles live.here;
    aligned = live.heap.aligned;
    below = live.heap.below;
    room = live.heap.room;
    quiet = λ y lo' hi'.
        write_ne h x v y (omega (arith, At-inside h q b _ live.blocks _ live.heap.tiles live.here))
        ∙ live.heap.quiet y lo' hi';
  }),
)

-- Where the byte at the heap's `end` is 0 before the set-up, which does not write it: from a fresh
-- kernel heap on, every memory that allocations of fewer than 2^31 - 1 bytes, frees of blocks in use
-- and writes into the data of blocks in use lead to is a well-formed heap.
pub Reach-IsHeap :
    (h g : Mem) {k : Mem}
    → h kernel_heap.last ≡ 0
    → init_kernel_heap h ≡ ok tt g
    → Reach g k
    → (bs : List Block) × IsKernelHeap bs k
Reach-IsHeap h g quiet start here =
    let (g', started, heap) = init_kernel_heap-IsHeap h quiet in
    (
      block 29 false ∷ [],
      subst (IsKernelHeap (block 29 false ∷ [])) (ok-state (sym started ∙ start)) heap,
    )
Reach-IsHeap h g quiet start (next r s) =
    let (bs, heap) = Reach-IsHeap h g quiet start r in Step-IsHeap s bs heap

pow-add : (k j : ℕ) → 2 ^ (k + j) ≡ 2 ^ j * 2 ^ k
pow-add k zero = rw (add-zero k) (omega arith)
pow-add k (suc j) =
    rw (add_suc k j)
      (omega (arith, pow-suc 2 (k + j), pow-add k j, ap (λ (t : ℕ). t * 2 ^ k) (pow-suc 2 j)))

-- A multiple of a larger power of two is one of a smaller.
Multiple-le : (k n p : ℕ) → k ≤ n → ((q : ℕ) × (p ≡ q * 2 ^ n)) → (q : ℕ) × (p ≡ q * 2 ^ k)
Multiple-le k n p le (q, e) =
    (q * 2 ^ (n - k), e ∙ ap (λ (t : ℕ). q * t) whole ∙ sym (mul_assoc q (2 ^ (n - k)) (2 ^ k)))
  where
    back : k + (n - k) ≡ n
    back = omega arith

    whole : 2 ^ n ≡ 2 ^ (n - k) * 2 ^ k
    whole = ap (λ s. 2 ^ s) (sym back) ∙ pow-add k (n - k)

order-lt : (k size n : ℕ) → 2 ^ k ≤ size + 1 → IsOrder (size + 1) n → k ≤ n
order-lt k size n big order = elim (lt_cases n k) [
  | inr le ↦ le
  | inl lt ↦
      let below : n ≤ k = omega arith in
      let grown : 2 ^ n ≤ 2 ^ k = pow-le-pow_right (omega arith) below in
      absurd (omega (arith, order.holds))
]

-- On a well-formed kernel heap, an object of 2 ^ k bytes or more, k up to 28, and fewer than 2^31 - 1
-- is, where the allocation succeeds, placed at a multiple of 2 ^ k, counted from address 0; so the
-- page tables and directories that the kernel allocates are page aligned.
pub kernel_allocate-multiple :
    (bs : List Block) (h : Mem) (k size p : ℕ) (h' : Mem)
    → IsKernelHeap bs h
    → k ≤ 28
    → 2 ^ k ≤ size
    → size + 1 < 2 ^ 31
    → kernel_allocate size h ≡ ok p h'
    → p ≢ 0
    → (m : ℕ) × (p ≡ m * 2 ^ k)
unfolding kernel_allocate
kernel_allocate-multiple bs h k size p h' heap most big small done real =
    let (n, order, (q, e)) =
      memory_allocate-Multiple kernel_heap kernel_heap.last bs h size p h' heap small done real in
    let (i, f) = Multiple-le k n (q * 2 ^ n) (order-lt k size n (omega arith) order) (q, refl) in
    let (j, g) = Multiple-le k 28 0xd000_0000 most (13, refl) in (j + i, omega arith)
