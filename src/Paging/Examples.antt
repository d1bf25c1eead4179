-- ===== src/Paging/Examples.antt =====
-- Runs of the page allocator, and its theorems at concrete tables.
use loof_os.Base.{ℕ, ◌%◌, ◌≡◌, refl, [], ◌∷◌, arith, inl, inr}
use loof_os.Machine.{Mem, write, word_at, put_word, Run, ok, undefined, out_of_fuel}
use loof_os.State.Samples.{booted}
use loof_os.State.{Kernel, load, store, on_mem}
use loof_os.PageEntries.{encode_pte_4kib, encode_pde_4kib, decode_pde_4kib, decode_pte_4kib}
use loof_os.Paging.{
  get_freelist, set_freelist, map_page, allocate_page, unmap_page, free_page, init_paging,
}
use loof_os.Paging.Walk.{unmapped, page, walk, pte_at, FreeList}
use loof_os.Paging.Allocate.{Allocates, allocate_page-Allocates, allocate_page-idle}
use loof_os.Paging.Free.{freed_at, free_page-misses}
use loof_os.Paging.Init.{Prepares, init_paging-Prepares}

runs : Run Kernel ℕ → Run Kernel ℕ
unfolding write word_at put_word on_mem load store encode_pte_4kib encode_pde_4kib decode_pde_4kib
    decode_pte_4kib get_freelist set_freelist map_page allocate_page unmap_page free_page
runs r = r

-- A directory at 0xd0001000 whose first entry is a table at 0xd0002000, and the free pages 0x5000 and
-- 0x6000.
abbrev tables : Mem
tables =
    put_word (put_word (put_word (λ x. 0) 0xd000_1000 0x1000_2007) 0x5000 0x6000) 0x6000 0xc000_0000

abbrev paged : Kernel
paged = record booted { mem = tables; page_freelist = 0x5000 }

abbrev kernel_of : Run Kernel (Unit {0}) → Kernel
kernel_of (ok _ k) = k
kernel_of undefined = paged
kernel_of out_of_fuel = paged

abbrev one_mapped : Kernel
one_mapped = kernel_of (allocate_page 0xd000_1000 0x3000 paged)

mapped_there : walk one_mapped.mem 0xd000_1000 0x3000 ≡ page 0x4000_5000
unfolding runs
mapped_there = refl

-- The page stays mapped when it is freed, and the top of the free pages does not change.
free_leaves_page :
    (walk (kernel_of (free_page 0xd000_1000 0x3000 one_mapped)).mem 0xd000_1000 0x3000
      ≡ page 0x4000_5000)
    × ((kernel_of (free_page 0xd000_1000 0x3000 one_mapped)).page_freelist ≡ 0x6000)
unfolding runs
free_leaves_page = (refl, refl)

unmapped_there : walk paged.mem 0xd000_1000 0x3000 ≡ unmapped
unfolding runs
unmapped_there = refl

entry_there : pte_at paged.mem 0xd000_1000 0x3000 ≡ 0xd000_200c
unfolding runs
entry_there = refl

free_pages : FreeList paged.mem 0x5000 (0x5000 ∷ 0x6000 ∷ [])
unfolding runs
free_pages = (refl, omega arith, refl, (refl, omega arith, refl, omega arith))

allocate_page-Allocates_example :
    Allocates 0xd000_1000 0x3000 0x5000 (0x6000 ∷ []) paged (allocate_page 0xd000_1000 0x3000 paged)
allocate_page-Allocates_example =
    allocate_page-Allocates 0xd000_1000 0x3000 0x5000 (0x6000 ∷ []) paged (omega arith)
      unmapped_there free_pages (omega (arith, entry_there)) (inl (omega (arith, entry_there)))

allocate_page-idle_example : allocate_page 0xd000_1000 0xc000_0000 paged ≡ ok tt paged
allocate_page-idle_example =
    allocate_page-idle 0xd000_1000 0xc000_0000 paged (inr (inl (omega arith)))

init_paging-Prepares_example :
    Prepares 0xc020_0000 paged (init_paging 0xc020_0000 0xc012_3456 paged)
init_paging-Prepares_example =
    init_paging-Prepares 0xc020_0000 0xc012_3456 paged (omega arith) (omega arith) (omega arith)
      (omega arith) (inr (omega arith))

elsewhere : word_at one_mapped.mem (freed_at one_mapped.mem 0xd000_1000 0x3000) % 2 ≡ 0
unfolding runs
elsewhere = refl

free_page-misses_example : free_page 0xd000_1000 0x3000 one_mapped ≡ ok tt one_mapped
free_page-misses_example =
    free_page-misses 0xd000_1000 0x3000 one_mapped (inr (0x4000_5000, mapped_there, elsewhere))
