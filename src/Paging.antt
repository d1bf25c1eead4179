-- ===== src/Paging.antt =====
-- arch/x86/mm/paging.c: page directories and tables as words in memory, and the stack of free pages
-- that is threaded through the pages themselves.
mod Examples
pub mod Walk
pub mod Allocate
pub mod Free
pub mod Fill
pub mod Thread
pub mod Init
use loof_os.Base.{ℕ, ◌+◌, ◌*◌, ◌/◌, ◌%◌, ◌^◌, ◌||◌, leb, ◌==◌, if◌then◌else◌, add32, sub32, u32}
use loof_os.Machine.{Cmd, ok, pure, ◌>>=◌, ◌>>◌}
use loof_os.State.{Kernel, on_mem, load, store, enable_paging, for_loop}
use loof_os.Alloc.{kernel_base, kernel_allocate}
use loof_os.Idt.{idt_prot_intr, set_id}
use loof_os.PageEntries.{
  Pde4Mib, Pte4Kib, encode_pde_4mib, encode_pde_4kib, encode_pte_4kib, decode_pde_4kib,
  decode_pte_4kib, no_pde_4mib, table_entry, page_entry, no_page,
}

abbrev pub page_size_4k : ℕ
page_size_4k = 0x1000

abbrev pub page_length_4m : ℕ
page_length_4m = 1024

abbrev pub page_offset : ℕ
page_offset = 0x4000_0000

abbrev pub dir_index : ℕ → ℕ
dir_index addr = addr / 2 ^ 22

abbrev pub table_index : ℕ → ℕ
table_index addr = addr / 2 ^ 12 % 1024

unfoldable pub get_freelist : Cmd Kernel ℕ
get_freelist k = ok k.page_freelist k

unfoldable pub set_freelist : ℕ → Cmd Kernel (Unit {0})
set_freelist p k = ok tt (record k { page_freelist = p })

-- The end of `allocate_page`, once the table is known.
unfoldable pub map_page : ℕ → ℕ → Cmd Kernel (Unit {0})
map_page page_table index = do
  let entry = add32 page_table (4 * index)
  old ← load entry
  if (decode_pte_4kib old).present == 1 then pure tt else (do
    top ← get_freelist
    let available_page = add32 top page_offset
    next ← load top
    set_freelist next
    store entry (encode_pte_4kib (page_entry (available_page / 2 ^ 12))))

-- A table where the directory has none. Its 4096 bytes are used as they are found.
unfoldable pub new_table : ℕ → Cmd Kernel ℕ
new_table entry = do
  page_table ← on_mem (kernel_allocate (4 * 1024))
  store entry (encode_pde_4kib (table_entry (sub32 page_table kernel_base / 2 ^ 12)))
  pure page_table

unfoldable pub allocate_page : ℕ → ℕ → Cmd Kernel (Unit {0})
allocate_page page_dir addr = do
  top ← get_freelist
  if leb kernel_base top || leb kernel_base addr then pure tt else (do
    let entry = add32 page_dir (4 * dir_index addr)
    word ← load entry
    let pde = decode_pde_4kib word
    if pde.present == 1
        then (if pde.ps == 1
            then pure tt
            else map_page (add32 (u32 (pde.addr * 2 ^ 12)) kernel_base) (table_index addr))
        else (do page_table ← new_table entry; map_page page_table (table_index addr)))

-- `free_page`, from a present page on.
unfoldable pub unmap_page : ℕ → Pte4Kib → Cmd Kernel (Unit {0})
unmap_page entry pte = do
  let freed_page = sub32 (u32 (pte.addr * 2 ^ 12)) page_offset
  top ← get_freelist
  store freed_page top
  set_freelist freed_page
  store entry (encode_pte_4kib no_page)

unfoldable pub free_page : ℕ → ℕ → Cmd Kernel (Unit {0})
free_page page_dir addr = do
  word ← load (add32 page_dir (4 * dir_index addr))
  let pde = decode_pde_4kib word
  if pde.present == 1
      then (do
        let page_table = sub32 (u32 (pde.addr * 2 ^ 12)) kernel_base
        let entry = add32 page_table (4 * table_index addr)
        old ← load entry
        let pte = decode_pte_4kib old
        if pte.present == 1 then unmap_page entry pte else pure tt)
      else pure tt

-- The kernel's page directory and the assembly handler stand where the linker puts them.
module _ (kernel_memory : ℕ) where
  unfoldable pub set_entry : ℕ → Pde4Mib → Cmd Kernel (Unit {0})
  set_entry i e = store (add32 kernel_memory (4 * i)) (encode_pde_4mib e)

  unfoldable pub low_mapping : ℕ → Cmd Kernel (Unit {0})
  low_mapping i =
      set_entry i
        (record no_pde_4mib { present = 1; rw' = 1; ps = 1; lowaddr = i + page_length_4m / 4 })

  unfoldable pub high_mapping : ℕ → Cmd Kernel (Unit {0})
  high_mapping i =
      set_entry (i + 3 * page_length_4m / 4)
        (record no_pde_4mib { present = 1; rw' = 1; ps = 1; g = 1; lowaddr = i })

-- The body of the loop that threads the free list, at page number `n` with `i = n * PAGE_SIZE_4K`.
unfoldable pub thread_page : ℕ → Cmd Kernel (Unit {0})
thread_page n = do let i = n * page_size_4k; set_freelist i; store i (add32 i page_size_4k)

module _ (kernel_memory pagefault_handler_wrapper : ℕ) where
  unfoldable pub init_paging : Cmd Kernel (Unit {0})
  init_paging = do
    for_loop page_length_4m 0 (λ i. set_entry kernel_memory i no_pde_4mib)
    for_loop (3 * page_length_4m / 4) 0 (low_mapping kernel_memory)
    for_loop (page_length_4m / 4) 0 (high_mapping kernel_memory)
    set_id 14 pagefault_handler_wrapper 0x08 idt_prot_intr 0 1
    enable_paging (sub32 kernel_memory kernel_base)
    for_loop (kernel_base / page_size_4k) 0 thread_page
    set_freelist 0
