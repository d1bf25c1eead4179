-- ===== src/Alloc/Examples.antt =====
-- Runs of the allocator, and its theorems at concrete heaps.
use loof_os.Base.{
  ℕ, ◌+◌, ◌*◌, ◌^◌, ◌≤◌, ◌≡◌, refl, true, false, List, [], ◌∷◌, arith, ◌==◌, if◌then◌else◌, inl,
}
use loof_os.Machine.{Mem, write, Run, ok, undefined, out_of_fuel, bit32}
use loof_os.Alloc.{
  HeapSpec, kernel_heap, get_size, get_used, set_size, set_used, split_block, split_loop,
  coalesce_loop, coalesce_block, round_loop, round_block_size, take_block, search_loop,
  memory_allocate, memory_free, new_block, init_loop, init_memory, kernel_allocate, kernel_free,
  init_kernel_heap,
}
use loof_os.Alloc.Blocks.{Block, block, first_fit}
use loof_os.Alloc.Round.{IsOrder, round_block_size-IsOrder, round_block_size-undefined}
use loof_os.Alloc.Heap.{
  IsHeap, Outcome, Undisturbed, memory_allocate-Outcome, memory_allocate-Undisturbed,
}
use loof_os.Alloc.Init.{Filled, fresh_blocks, fresh_end, init_memory-Filled}
use loof_os.Alloc.Free.{Leaves, release, memory_free-Leaves}
use loof_os.Alloc.Kernel.{
  IsKernelHeap, allocates, here, next, Reach-IsHeap, kernel_allocate-multiple,
}

abbrev zeros : Mem
zeros x = 0

abbrev mem_of : {A : Type 0} → Run Mem A → Mem
mem_of (ok _ h) = h
mem_of undefined = zeros
mem_of out_of_fuel = zeros

-- All of alloc.c, for the runs.
runs : Run Mem ℕ → Run Mem ℕ
unfolding write bit32 get_size get_used set_size set_used split_block split_loop coalesce_loop
    coalesce_block round_loop round_block_size take_block search_loop memory_allocate memory_free
    new_block init_loop init_memory kernel_allocate kernel_free init_kernel_heap
runs r = r

abbrev fresh : Mem
fresh = mem_of (init_kernel_heap zeros)

first_page : kernel_allocate 4096 fresh ≡ ok 0xd000_0000 (mem_of (kernel_allocate 4096 fresh))
unfolding runs
first_page = refl

-- The byte behind the kernel's heap is taken for a header: where it is not 0, the heap hands out
-- addresses that it does not own.
abbrev dirty : Mem
dirty x = if x == kernel_heap.last then 29 else 0

beyond_the_end :
    kernel_allocate 0x2000_0000 (mem_of (init_kernel_heap zeros))
    ≡ ok 0 (mem_of (init_kernel_heap zeros))
unfolding runs
beyond_the_end = refl

taken_beyond_the_end :
    let full = mem_of (kernel_allocate 0x1000_0000 (mem_of (init_kernel_heap dirty))) in
    kernel_allocate 0x1000_0000 full ≡ ok 0xf000_0000 (mem_of (kernel_allocate 0x1000_0000 full))
unfolding runs
taken_beyond_the_end = refl

-- A heap of 64 bytes.
abbrev little : HeapSpec
little = record { start = 7; last = 70 }

abbrev empty : Mem
empty = write zeros 7 6

empty-IsHeap : IsHeap little 71 (block 6 false ∷ []) empty
unfolding runs
empty-IsHeap = record {
  tiles = (refl, omega arith, omega arith, refl);
  aligned = ((0, refl), tt);
  below = omega arith;
  room = omega arith;
  quiet = λ x lo hi. absurd (omega arith);
}

abbrev one_taken : Mem
one_taken = mem_of (memory_allocate little 4 empty)

abbrev one_blocks : List Block
one_blocks = block 3 true ∷ block 3 false ∷ block 4 false ∷ block 5 false ∷ []

one_taken-IsHeap : IsHeap little 71 one_blocks one_taken
unfolding runs
one_taken-IsHeap = record {
  tiles = (
    refl,
    omega arith,
    omega arith,
    (
      refl,
      omega arith,
      omega arith,
      (refl, omega arith, omega arith, (refl, omega arith, omega arith, refl)),
    ),
  );
  aligned = ((0, refl), ((1, refl), ((1, refl), ((1, refl), tt))));
  below = omega arith;
  room = omega arith;
  quiet = λ x lo hi. absurd (omega arith);
}

abbrev two_taken : Mem
two_taken = mem_of (memory_allocate little 4 one_taken)

-- Data that looks like a header: freeing the second block changes the first block's data.
free_corrupts :
    let h = write (write two_taken 8 3) 16 3 in
    let g = mem_of (memory_free little 16 h) in (h 7 ≡ 131) × (h 8 ≡ 3) × (g 7 ≡ 131) × (g 8 ≡ 4)
unfolding runs
free_corrupts = (refl, refl, refl, refl)

-- Data whose first byte is 32 or more makes the shift of `coalesce_block` undefined.
free_undefined : memory_free little 8 (write one_taken 8 0x45) ≡ undefined
unfolding runs
free_undefined = refl

-- The two free halves are not merged.
free_keeps_halves : (mem_of (memory_free little 8 one_taken)) 7 ≡ 3
unfolding runs
free_keeps_halves = refl

round_block_size-IsOrder_example :
    (n : ℕ) × (round_block_size 4097 zeros ≡ ok n zeros) × IsOrder 4097 n
round_block_size-IsOrder_example = round_block_size-IsOrder 4097 zeros (omega arith)

round_block_size-undefined_example : round_block_size (2 ^ 31) zeros ≡ undefined
round_block_size-undefined_example = round_block_size-undefined (2 ^ 31) zeros (omega arith)

memory_allocate-Outcome_example :
    (n : ℕ) × IsOrder (4 + 1) n
    × Outcome little 71 empty (first_fit n 7 (block 6 false ∷ [])) (memory_allocate little 4 empty)
memory_allocate-Outcome_example =
    memory_allocate-Outcome little 71 (block 6 false ∷ []) empty empty-IsHeap 4 (omega arith)

second_runs : memory_allocate little 4 one_taken ≡ ok 16 two_taken
unfolding runs
second_runs = refl

memory_allocate-Undisturbed_example : Undisturbed 7 8 16 4 one_taken two_taken
memory_allocate-Undisturbed_example =
    memory_allocate-Undisturbed little 71 one_blocks one_taken 4 16 two_taken 7 (block 3 true)
      one_taken-IsHeap (omega arith) second_runs (omega arith) refl (inl (refl, refl))

init_memory-Filled_example :
    Filled zeros 7 (fresh_blocks little) (fresh_end little) (init_memory little zeros)
init_memory-Filled_example = init_memory-Filled little zeros (omega arith) (omega arith)

memory_free-Leaves_example :
    Leaves 7 (release 7 7 one_blocks) 71 (memory_free little (7 + 1) one_taken)
memory_free-Leaves_example =
    memory_free-Leaves little 71 one_blocks one_taken one_taken-IsHeap 7 (block 3 true) refl
      (inl (refl, refl))

fresh-IsKernelHeap : IsKernelHeap (block 29 false ∷ []) fresh
unfolding runs
fresh-IsKernelHeap = record {
  tiles = (refl, omega arith, omega arith, refl);
  aligned = ((0, refl), tt);
  below = omega arith;
  room = omega arith;
  quiet = λ x lo hi. rw (last_byte x lo hi) refl;
}
  where
    last_byte : (x : ℕ) → kernel_heap.last ≤ x → x ≤ kernel_heap.last → x ≡ kernel_heap.last
    last_byte x lo hi = omega arith

kernel_allocate-multiple_example : (m : ℕ) × (0xd000_0000 ≡ m * 2 ^ 12)
kernel_allocate-multiple_example =
    kernel_allocate-multiple (block 29 false ∷ []) fresh 12 4096 0xd000_0000
      (mem_of (kernel_allocate 4096 fresh)) fresh-IsKernelHeap (omega arith) (omega arith)
      (omega arith) first_page (omega arith)

fresh_runs : init_kernel_heap zeros ≡ ok tt fresh
unfolding runs
fresh_runs = refl

Reach-IsHeap_example : (bs : List Block) × IsKernelHeap bs (mem_of (kernel_allocate 4096 fresh))
Reach-IsHeap_example =
    Reach-IsHeap zeros fresh refl fresh_runs
      (next here (allocates 4096 0xd000_0000 (omega arith) first_page))
