-- ===== src/Paging/Free.antt =====
-- `free_page`, as it is written: the table's address is taken 2^31 bytes away from where
-- `allocate_page` and the processor have it.
use loof_os.Base.{ℕ, ◌*◌, ◌/◌, ◌%◌, ◌^◌, ◌<◌, ◌≡◌, refl, ◌⊎◌, inl, inr, add32, sub32, u32, arith}
use loof_os.Machine.{Mem, word_at, ok}
use loof_os.Machine.Words.{word_at-lt}
use loof_os.State.{Kernel, load}
use loof_os.Alloc.{kernel_base}
use loof_os.PageEntries.{decode_pde_4kib, decode_pte_4kib}
use loof_os.Paging.{free_page}
use loof_os.Paging.Walk.{no_table, page, pde_at, pte_at, walk_table, walk, walk-page}

-- Where `free_page` looks for the table entry.
abbrev pub freed_at : Mem → ℕ → ℕ → ℕ
freed_at h dir addr = add32 (pte_at h dir addr) (2 ^ 31)

freed_address :
    (w addr : ℕ)
    → w < 2 ^ 32
    → add32 (sub32 (u32 (w / 4096 % 1048576 * 4096)) kernel_base) (4 * (addr / 4096 % 1024))
      ≡ add32 (add32 (add32 (w / 4096 * 4096) kernel_base) (4 * (addr / 4096 % 1024))) (2 ^ 31)
freed_address w addr small = omega arith

pub walk-no_table : (pde pte : ℕ) → walk_table pde pte ≡ no_table → pde % 2 ≡ 0
walk-no_table pde pte w = ground arith

module _ (dir addr : ℕ) (k : Kernel) where
  misses :
      word_at k.mem (pde_at dir addr) % 2 ≡ 1
      → word_at k.mem (freed_at k.mem dir addr) % 2 ≡ 0
      → free_page dir addr k ≡ ok tt k
  unfolding free_page load decode_pde_4kib decode_pte_4kib
  misses present absent =
      rw
        (
          present,
          freed_address (word_at k.mem (pde_at dir addr)) addr (word_at-lt k.mem (pde_at dir addr)),
          absent,
        )
        refl

  absent_table : word_at k.mem (pde_at dir addr) % 2 ≡ 0 → free_page dir addr k ≡ ok tt k
  unfolding free_page load decode_pde_4kib
  absent_table absent = rw absent refl

  -- Where the directory has no table for the address, and also where a page is mapped there, if the
  -- word 2^31 bytes from its table entry is not that of a present page, `free_page` changes nothing:
  -- in the second case the page stays mapped.
  pub free_page-misses :
      (walk k.mem dir addr ≡ no_table)
        ⊎ ((q : ℕ) × (walk k.mem dir addr ≡ page q)
            × (word_at k.mem (freed_at k.mem dir addr) % 2 ≡ 0))
      → free_page dir addr k ≡ ok tt k
  free_page-misses (inl none) =
      absent_table (
        walk-no_table (word_at k.mem (pde_at dir addr)) (word_at k.mem (pte_at k.mem dir addr))
          none)
  free_page-misses (inr (q, is_page, absent)) =
      misses
        (walk-page (word_at k.mem (pde_at dir addr)) (word_at k.mem (pte_at k.mem dir addr)) q
          is_page).0
        absent
