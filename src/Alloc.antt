-- ===== src/Alloc.antt =====
-- arch/x86/mm/alloc.c and alloc.h: the kernel's buddy allocator. A block is a power of two of
-- bytes, and its first byte is the header: seven bits of size (the logarithm), one bit `used`.
-- The state is the memory itself. A pointer is its 32-bit address.
pub mod Aligned
pub mod Blocks
pub mod Contract
mod Examples
pub mod Free
pub mod Odd
pub mod Heap
pub mod Init
pub mod Kernel
pub mod Round
pub mod Search
pub mod Split
use loof_os.Base.{
  ℕ, zero, suc, ◌+◌, ◌-◌, ◌*◌, ◌/◌, ◌%◌, ◌^◌, bit_xor, ◌&&◌, ltb, leb, ◌==◌, if◌then◌else◌, add32,
  sub32, u8,
}
use loof_os.Machine.{Mem, write, ok, undefined, out_of_fuel, Cmd, pure, ◌>>=◌, ◌>>◌, bit32}

abbrev pub min_block_size : ℕ
min_block_size = 3

abbrev pub kernel_base : ℕ
kernel_base = 0xc000_0000

-- sizeof(heap_header)
abbrev pub header_bytes : ℕ
header_bytes = 1

-- `end` is the last byte's address.
pub record HeapSpec : Type 0 where
  pub start : ℕ
  pub last : ℕ

abbrev pub kernel_heap : HeapSpec
kernel_heap = record {
  start = kernel_base + 0x1000_0000 - header_bytes;
  last = kernel_base + 0x3000_0000 - header_bytes;
}

-- The bit-fields of `heap_header`, lowest first: `size:7`, `used:1`.
unfoldable pub get_size : ℕ → Cmd Mem ℕ
get_size a h = ok (h a % 128) h

unfoldable pub get_used : ℕ → Cmd Mem ℕ
get_used a h = ok (h a / 128 % 2) h

unfoldable pub set_size : ℕ → ℕ → Cmd Mem (Unit {0})
set_size a s h = ok tt (write h a (h a / 128 % 2 * 128 + s % 128))

unfoldable pub set_used : ℕ → ℕ → Cmd Mem (Unit {0})
set_used a u h = ok tt (write h a (u * 128 + h a % 128))

-- `split_block`
unfoldable pub split_block : ℕ → Cmd Mem (Unit {0})
split_block block = do
  size ← get_size block
  let new_size = sub32 size 1
  d ← bit32 new_size
  let new_buddy = add32 block d
  set_size new_buddy new_size
  set_used new_buddy 0
  set_size block new_size

-- `while (alloc_addr->size > actual_size) split_block(alloc_addr);` A size has seven bits and
-- falls in each round.
unfoldable pub split_loop : ℕ → ℕ → ℕ → Cmd Mem (Unit {0})
split_loop zero block actual_size = λ _. out_of_fuel
split_loop (suc fuel) block actual_size = do
  size ← get_size block
  if ltb actual_size size then split_block block >> split_loop fuel block actual_size else pure tt

-- `while (1)` of `coalesce_block`
unfoldable pub coalesce_loop : ℕ → ℕ → ℕ → Cmd Mem (Unit {0})
coalesce_loop zero buddy1 offset = λ _. out_of_fuel
coalesce_loop (suc fuel) buddy1 offset = do
  size1 ← get_size buddy1
  d ← bit32 size1
  let buddy2 = add32 (bit_xor (sub32 buddy1 offset) d) offset
  used2 ← get_used buddy2
  size2 ← get_size buddy2
  let merged = if ltb buddy1 buddy2 then buddy1 else buddy2
  if (used2 == 0) && (size2 == size1)
      then (do set_size merged (size1 + 1); coalesce_loop fuel merged offset)
      else pure tt

-- Each round but the last makes a size grow, and a size of 32 ends the loop.
unfoldable pub coalesce_block : ℕ → ℕ → Cmd Mem (Unit {0})
coalesce_block block offset = coalesce_loop 34 block offset

-- `while ((size >> ++block_size) != 0);`, entered with `block_size`
unfoldable pub round_loop : {S : Type 0} → ℕ → ℕ → ℕ → Cmd S ℕ
round_loop zero size block_size = λ _. out_of_fuel
round_loop (suc fuel) size block_size =
    let next = block_size + 1 in
    let rest = round_loop fuel size next in
    if ltb next 32 then (if size / 2 ^ next == 0 then pure next else rest) else (λ _. undefined)

-- `round_block_size`. The shift reaches 32 after 30 rounds.
unfoldable pub round_block_size : {S : Type 0} → ℕ → Cmd S ℕ
round_block_size size = do
  block_size ← round_loop 30 size (min_block_size - 1)
  d ← bit32 block_size
  pure (if ltb d size then block_size + 1 else block_size)

-- The body of the first `if` of `memory_allocate`.
unfoldable pub take_block : ℕ → ℕ → Cmd Mem ℕ
take_block alloc_addr actual_size = do
  split_loop 128 alloc_addr actual_size
  set_used alloc_addr 1
  pure (add32 alloc_addr header_bytes)

-- The search of `memory_allocate` from `alloc_addr` on. Each round moves up by a byte or more.
unfoldable pub search_loop : ℕ → ℕ → ℕ → ℕ → Cmd Mem ℕ
search_loop zero last actual_size alloc_addr = λ _. out_of_fuel
search_loop (suc fuel) last actual_size alloc_addr =
    if leb alloc_addr last
    then (do
      used ← get_used alloc_addr
      size ← get_size alloc_addr
      let next = do d ← bit32 size; search_loop fuel last actual_size (add32 alloc_addr d)
      if (used == 0) && leb actual_size size then take_block alloc_addr actual_size else next)
    else pure 0

unfoldable pub memory_allocate : HeapSpec → ℕ → Cmd Mem ℕ
memory_allocate alloc_info size = do
  actual_size ← round_block_size (add32 size header_bytes)
  search_loop (alloc_info.last + 2 - alloc_info.start) alloc_info.last actual_size alloc_info.start

unfoldable pub memory_free : HeapSpec → ℕ → Cmd Mem (Unit {0})
memory_free alloc_info addr = do
  let free_addr = sub32 addr header_bytes
  set_used free_addr 0
  coalesce_block addr alloc_info.start

-- The body of the `if` of `init_memory`: a free block, and the address behind it.
unfoldable pub new_block : ℕ → ℕ → Cmd Mem ℕ
new_block block alloc_size = do
  set_size block alloc_size
  set_used block 0
  d ← bit32 alloc_size
  pure (add32 block d)

-- The `while` of `init_memory`: the heap's length is halved in each round.
unfoldable pub init_loop : ℕ → ℕ → ℕ → ℕ → ℕ → Cmd Mem (Unit {0})
init_loop zero last block heap_length alloc_size = λ _. out_of_fuel
init_loop (suc fuel) last block heap_length alloc_size =
    if ltb block last && ltb 0 heap_length
    then (do
      block' ← if heap_length % 2 == 1 then new_block block alloc_size else pure block
      init_loop fuel last block' (heap_length / 2) (u8 (alloc_size + 1)))
    else pure tt

unfoldable pub init_memory : HeapSpec → Cmd Mem (Unit {0})
init_memory alloc_info =
    let heap_length = add32 (sub32 alloc_info.last alloc_info.start) 1 in
    init_loop 33 alloc_info.last alloc_info.start (heap_length / 2 ^ min_block_size) min_block_size

unfoldable pub kernel_allocate : ℕ → Cmd Mem ℕ
kernel_allocate size = memory_allocate kernel_heap size

unfoldable pub kernel_free : ℕ → Cmd Mem (Unit {0})
kernel_free addr = memory_free kernel_heap addr

unfoldable pub init_kernel_heap : Cmd Mem (Unit {0})
init_kernel_heap = init_memory kernel_heap
