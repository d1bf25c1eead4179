-- ===== src/Paging/Init.antt =====
-- `init_paging`: the kernel's page directory and the free pages that it leaves.
use loof_os.Base.{
  ℕ, ◌+◌, ◌-◌, ◌*◌, ◌^◌, ◌≤◌, ◌<◌, ◌≡◌, refl, sym, ◌∙◌, ap, subst, ◌⊎◌, inl, arith, add32, sub32,
}
use loof_os.Machine.{Mem, Run, ok, undefined, out_of_fuel, word_at, put_word}
use loof_os.Machine.Words.{put_word_ne, word_at-same}
use loof_os.State.{Kernel, for_loop, store, enable_paging}
use loof_os.Alloc.{kernel_base}
use loof_os.Idt.{low_word, high_word, descriptor, set_id}
use loof_os.PageEntries.{encode_pde_4mib, no_pde_4mib}
use loof_os.Paging.{set_freelist, set_entry, low_mapping, high_mapping, thread_page, init_paging}
use loof_os.Paging.Walk.{FreeList}
use loof_os.Paging.Fill.{Filled, for_loop-Filled}
use loof_os.Paging.Thread.{pages, Threaded, for_loop-Threaded, FreeList-of_links}

-- The entry of a 4 MiB page in frame `i`, for the kernel alone, and the same with the global bit.
abbrev pub low_entry : ℕ → ℕ
low_entry i = 131 + i * 4194304

abbrev pub high_entry : ℕ → ℕ
high_entry i = 387 + i * 4194304

-- `k'` has the kernel's directory at `km`: below the kernel's space the frames from 1 GiB on, in it the
-- frames from 0 on. All pages below the kernel's space are free.
pub record Prepared (km : ℕ) (k k' : Kernel) : Type 0 where
  low : (i : ℕ) → i < 768 → word_at k'.mem (km + 4 * i) ≡ low_entry (i + 256)
  high : (i : ℕ) → i < 256 → word_at k'.mem (km + 4 * (i + 768)) ≡ high_entry i
  free : FreeList k'.mem k'.page_freelist (pages 0 786432)
  walked : k'.cr3 ≡ km - kernel_base
  others :
      (x : ℕ)
      → kernel_base ≤ x
      → (x < km) ⊎ (km + 4096 ≤ x)
      → (x < k.idt) ⊎ (k.idt + 2048 ≤ x)
      → k'.mem x ≡ k.mem x

abbrev pub Prepares : ℕ → Kernel → Run Kernel (Unit {0}) → Type 0
Prepares km k (ok _ k') = Prepared km k k'
Prepares km k undefined = ⊥
Prepares km k out_of_fuel = ⊥

encode-low :
    (i : ℕ)
    → i < 768
    → encode_pde_4mib (record no_pde_4mib { present = 1; rw' = 1; ps = 1; lowaddr = i + 256 })
      ≡ low_entry (i + 256)
unfolding encode_pde_4mib
encode-low i lt = omega (arith, lt)

encode-high :
    (i : ℕ)
    → i < 256
    → encode_pde_4mib (record no_pde_4mib { present = 1; rw' = 1; ps = 1; g = 1; lowaddr = i })
      ≡ high_entry i
unfolding encode_pde_4mib
encode-high i lt = omega (arith, lt)

module _ (km : ℕ) (room : km + 4096 ≤ 2 ^ 32) where
  entry_at : (i : ℕ) → i < 1024 → add32 km (4 * i) ≡ km + 4 * (i + 0)
  entry_at i lt = omega (arith, lt, room)

  zero-writes :
      (i : ℕ) (k : Kernel)
      → i < 1024
      → set_entry km i no_pde_4mib k
        ≡ ok tt (record k { mem = put_word k.mem (km + 4 * (i + 0)) 0 })
  unfolding set_entry store encode_pde_4mib
  zero-writes i k lt = rw (entry_at i lt) refl

  low-writes :
      (i : ℕ) (k : Kernel)
      → i < 768
      → low_mapping km i k
        ≡ ok tt (record k { mem = put_word k.mem (km + 4 * (i + 0)) (low_entry (i + 256)) })
  unfolding low_mapping set_entry store
  low-writes i k lt = rw (entry_at i (omega (arith, lt)), encode-low i lt) refl

  high-writes :
      (i : ℕ) (k : Kernel)
      → i < 256
      → high_mapping km i k
        ≡ ok tt (record k { mem = put_word k.mem (km + 4 * (i + 768)) (high_entry i) })
  unfolding high_mapping set_entry store
  high-writes i k lt = rw (at, encode-high i lt) refl
    where
      at : add32 km (4 * (i + 768)) ≡ km + 4 * (i + 768)
      at = omega (arith, lt, room)

-- The eight bytes of the page fault's descriptor.
module _ (offset : ℕ) (k : Kernel) where
  abbrev fault_mem : Mem
  fault_mem =
      let d = descriptor offset 0x08 0xe 0 1 in
      put_word (put_word k.mem (add32 k.idt 112) (low_word d)) (add32 (add32 k.idt 112) 4)
        (high_word d)

  set_id-fault : set_id 14 offset 0x08 0xe 0 1 k ≡ ok tt (record k { mem = fault_mem })
  unfolding set_id store
  set_id-fault = refl

  fault_mem-others :
      k.idt + 2048 ≤ 2 ^ 32 → (x : ℕ) → (x < k.idt) ⊎ (k.idt + 2048 ≤ x) → fault_mem x ≡ k.mem x
  fault_mem-others room x out =
      put_word_ne (put_word k.mem (add32 k.idt 112) (low_word (descriptor offset 0x08 0xe 0 1)))
        (add32 (add32 k.idt 112) 4) (high_word (descriptor offset 0x08 0xe 0 1)) x
        (ground (arith, second, out))
      ∙ put_word_ne k.mem (add32 k.idt 112) (low_word (descriptor offset 0x08 0xe 0 1)) x
          (ground (arith, first, out))
    where
      first : add32 k.idt 112 ≡ k.idt + 112
      first = omega (arith, room)

      second : add32 (add32 k.idt 112) 4 ≡ k.idt + 116
      second = omega (arith, room)

module _ (km offset : ℕ) (k : Kernel) (above : kernel_base ≤ km) (room : km + 4096 ≤ 2 ^ 32)
    (idt_above : kernel_base ≤ k.idt) (idt_room : k.idt + 2048 ≤ 2 ^ 32)
    (apart : (k.idt + 2048 ≤ km) ⊎ (km + 4096 ≤ k.idt)) where
  cleared :
      (k' : Kernel) × (for_loop 1024 0 (λ i. set_entry km i no_pde_4mib) k ≡ ok tt k')
      × Filled km 0 (λ i. 0) k 1024 k'
  cleared =
      for_loop-Filled km 0 1024 (λ i. 0) (λ i lt. omega arith) (λ i. set_entry km i no_pde_4mib)
        (zero-writes km room) k

  lows :
      (k' : Kernel) × (for_loop 768 0 (low_mapping km) cleared.0 ≡ ok tt k')
      × Filled km 0 (λ i. low_entry (i + 256)) cleared.0 768 k'
  lows =
      for_loop-Filled km 0 768 (λ i. low_entry (i + 256)) (λ i lt. omega (arith, lt))
        (low_mapping km) (low-writes km room) cleared.0

  highs :
      (k' : Kernel) × (for_loop 256 0 (high_mapping km) lows.0 ≡ ok tt k')
      × Filled km 768 high_entry lows.0 256 k'
  highs =
      for_loop-Filled km 768 256 high_entry (λ i lt. omega (arith, lt)) (high_mapping km)
        (high-writes km room) lows.0

  abbrev faulting : Kernel
  faulting = record (highs.0) { mem = fault_mem offset highs.0; cr3 = sub32 km kernel_base }

  threaded :
      (k' : Kernel) × (for_loop 786432 0 thread_page faulting ≡ ok tt k')
      × Threaded faulting 786432 k'
  threaded = for_loop-Threaded faulting

  runs : init_paging km offset k ≡ ok tt (record (threaded.0) { page_freelist = 0 })
  unfolding init_paging enable_paging set_freelist
  runs = rw (cleared.1, lows.1, highs.1, set_id-fault offset highs.0, threaded.1) refl

  idt-same : highs.0.idt ≡ k.idt
  idt-same =
      ap (λ (z : Kernel). z.idt) highs.2.same
      ∙ ap (λ (z : Kernel). z.idt) lows.2.same
      ∙ ap (λ (z : Kernel). z.idt) cleared.2.same

  -- From the directory's loops on, only the page fault's descriptor and pages below the kernel change.
  mem-late :
      (x : ℕ)
      → kernel_base ≤ x
      → (x < k.idt) ⊎ (k.idt + 2048 ≤ x)
      → threaded.0.mem x ≡ highs.0.mem x
  mem-late x high out =
      threaded.2.others x high
      ∙ fault_mem-others offset highs.0 (subst (λ t. t + 2048 ≤ 2 ^ 32) (sym idt-same) idt_room) x
          (subst (λ t. (x < t) ⊎ (t + 2048 ≤ x)) (sym idt-same) out)

  word-late :
      (i : ℕ) → i < 1024 → word_at threaded.0.mem (km + 4 * i) ≡ word_at highs.0.mem (km + 4 * i)
  word-late i lt =
      word_at-same threaded.0.mem highs.0.mem (km + 4 * i)
        (λ x lo hi. mem-late x (omega (arith, lo, above)) (ground (arith, lo, hi, lt, apart)))

  -- Where the kernel's page directory and the interrupt table lie in the kernel's space, apart from
  -- each other: `init_paging` returns. The directory then maps the space below the kernel to the
  -- physical memory from 1 GiB on and the kernel's space to that from 0 on, the processor has the
  -- directory's physical address, all 786432 pages below the kernel are free in ascending order, and
  -- in the kernel's space nothing outside the two tables has changed.
  pub init_paging-Prepares : Prepares km k (init_paging km offset k)
  init_paging-Prepares = rw runs (record {
    low = λ i lt.
        word-late i (omega (arith, lt))
        ∙ word_at-same highs.0.mem lows.0.mem (km + 4 * i)
            (λ x lo hi. highs.2.others x (inl (omega (arith, hi, lt))))
        ∙ subst (λ t. word_at lows.0.mem (km + 4 * t) ≡ low_entry (i + 256)) (plus i)
            (lows.2.entries i lt);
    high = λ i lt. word-late (i + 768) (omega (arith, lt)) ∙ highs.2.entries i lt;
    free = FreeList-of_links threaded.0.mem 786432 0 (omega arith) threaded.2.links;
    walked = ap (λ (z : Kernel). z.cr3) threaded.2.same ∙ directory;
    others = λ x high out away.
        mem-late x high away
        ∙ highs.2.others x (ground (arith, out))
        ∙ lows.2.others x (ground (arith, out))
        ∙ cleared.2.others x (ground (arith, out));
  })
    where
      plus : (i : ℕ) → i + 0 ≡ i
      plus i = omega arith

      directory : sub32 km kernel_base ≡ km - kernel_base
      directory = omega (arith, above, room)
