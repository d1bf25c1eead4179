-- ===== src/Paging/Allocate.antt =====
-- `allocate_page` on a page whose table exists.
use loof_os.Base.{
  ℕ, ◌+◌, ◌*◌, ◌/◌, ◌%◌, ◌^◌, ◌≤◌, ◌<◌, ◌≡◌, refl, sym, ◌∙◌, ap, ap₂, subst, List, [], ◌∷◌, ◌||◌,
  ◌⊎◌, add32, u32, arith, inl, inr, leb, true, leb_of_le, leb_of_lt, lt_cases,
}
use loof_os.Machine.{Mem, word_at, put_word, Run, ok, undefined, out_of_fuel}
use loof_os.Machine.Words.{word_at-lt, put_word_ne, word_at-put_word_self, word_at-put_word_ne}
use loof_os.State.{Kernel, load, store}
use loof_os.Alloc.{kernel_base}
use loof_os.PageEntries.{encode_pte_4kib, decode_pde_4kib, decode_pte_4kib, page_entry}
use loof_os.Paging.{page_offset, get_freelist, set_freelist, map_page, allocate_page}
use loof_os.Paging.Walk.{
  large, unmapped, page, pde_at, pte_at, walk_table, walk, FreeList, walk-large, walk-unmapped,
  walk-page,
}

-- The word of a present page that users may write, in the frame at `a`.
encode-page : (a : ℕ) → a < 2 ^ 20 → encode_pte_4kib (page_entry a) ≡ 7 + a * 4096
unfolding encode_pte_4kib
encode-page a small = omega arith

table_address : (w : ℕ) → w < 2 ^ 32 → u32 (w / 4096 % 1048576 * 4096) ≡ w / 4096 * 4096
table_address w small = omega arith

module _ (dir addr : ℕ) (k : Kernel) (low : addr < kernel_base)
    (free : k.page_freelist < kernel_base) where
  abbrev pde : ℕ
  pde = word_at k.mem (pde_at dir addr)

  abbrev pte : ℕ
  pte = word_at k.mem (pte_at k.mem dir addr)

  allocate_page-small :
      pde % 2 ≡ 1
      → pde / 128 % 2 ≡ 0
      → allocate_page dir addr k
        ≡ map_page (add32 (pde / 4096 * 4096) kernel_base) (addr / 4096 % 1024) k
  unfolding allocate_page get_freelist load decode_pde_4kib
  allocate_page-small present small =
      rw
        (
          leb_of_lt {a = kernel_base} {b = k.page_freelist} free,
          leb_of_lt {a = kernel_base} {b = addr} low,
          present,
          small,
          table_address pde (word_at-lt k.mem (pde_at dir addr)),
        )
        refl

  abbrev pub mapped : Mem
  mapped = put_word k.mem (pte_at k.mem dir addr) (7 + (k.page_freelist + page_offset))

  map_page-taken :
      pte % 2 ≡ 1
      → map_page (add32 (pde / 4096 * 4096) kernel_base) (addr / 4096 % 1024) k ≡ ok tt k
  unfolding map_page load decode_pte_4kib
  map_page-taken present = rw present refl

  map_page-fresh :
      pte % 2 ≡ 0
      → k.page_freelist % 4096 ≡ 0
      → map_page (add32 (pde / 4096 * 4096) kernel_base) (addr / 4096 % 1024) k
        ≡ ok tt (record k { mem = mapped; page_freelist = word_at k.mem k.page_freelist })
  unfolding map_page load store get_freelist set_freelist decode_pte_4kib
  map_page-fresh absent whole =
      rw (absent, encode-page (add32 k.page_freelist page_offset / 4096) (omega arith), frame) refl
    where
      frame :
          7 + add32 k.page_freelist page_offset / 4096 * 4096 ≡ 7 + (k.page_freelist + page_offset)
      frame = omega (arith, free, whole)

  -- The table entry is not the directory entry.
  module _
      (apart : (pde_at dir addr + 4 ≤ pte_at k.mem dir addr)
        ⊎ (pte_at k.mem dir addr + 4 ≤ pde_at dir addr))
      (whole : k.page_freelist % 4096 ≡ 0) where
    pde-mapped : word_at mapped (pde_at dir addr) ≡ pde
    pde-mapped =
        word_at-put_word_ne k.mem (pte_at k.mem dir addr) (7 + (k.page_freelist + page_offset))
          (pde_at dir addr) apart

    pte-mapped : word_at mapped (pte_at mapped dir addr) ≡ 7 + (k.page_freelist + page_offset)
    pte-mapped = rw pde-mapped (
        word_at-put_word_self k.mem (pte_at k.mem dir addr) (7 + (k.page_freelist + page_offset))
          (omega (arith, free, whole)))

    walk-mapped :
        pde % 2 ≡ 1
        → pde / 128 % 2 ≡ 0
        → walk mapped dir addr ≡ page (k.page_freelist + page_offset)
    walk-mapped present small =
        ap₂ walk_table pde-mapped pte-mapped ∙ rw (present, small, odd, whole_frame) refl
      where
        odd : (7 + (k.page_freelist + page_offset)) % 2 ≡ 1
        odd = omega (arith, whole)

        whole_frame :
            (7 + (k.page_freelist + page_offset)) / 4096 * 4096 ≡ k.page_freelist + page_offset
        whole_frame = omega (arith, whole)

-- The free pages lie below the kernel, where no table entry is.
FreeList-put :
    (h : Mem) (at v top : ℕ) (ps : List ℕ)
    → kernel_base ≤ at
    → FreeList h top ps
    → FreeList (put_word h at v) top ps
FreeList-put h at v top [] high free = free
FreeList-put h at v top (p ∷ ps) high free = (
  free.0,
  free.1,
  free.2,
  subst (λ t. FreeList (put_word h at v) t ps)
      (sym (word_at-put_word_ne h at v p (inl (omega (arith, high, free.1, free.2)))))
      (FreeList-put h at v (word_at h p) ps high free.3),
)

-- The page at `addr` has the frame of the free page `p`, `ps` are free, and only the table entry and
-- the top of the free pages have changed.
pub record Maps (dir addr p : ℕ) (ps : List ℕ) (k k' : Kernel) : Type 0 where
  walked : walk k'.mem dir addr ≡ page (p + page_offset)
  left : FreeList k'.mem k'.page_freelist ps
  others :
      (x : ℕ) → (x < pte_at k.mem dir addr) ⊎ (pte_at k.mem dir addr + 4 ≤ x) → k'.mem x ≡ k.mem x
  same : k' ≡ record k { mem = k'.mem; page_freelist = k'.page_freelist }

abbrev pub Allocates : ℕ → ℕ → ℕ → List ℕ → Kernel → Run Kernel (Unit {0}) → Type 0
Allocates dir addr p ps k (ok _ k') = Maps dir addr p ps k k'
Allocates dir addr p ps k undefined = ⊥
Allocates dir addr p ps k out_of_fuel = ⊥

-- For an address below the kernel whose table exists and has no page there, with a page `p` on top of
-- the free pages and the table entry in the kernel's space and apart from the directory entry:
-- `allocate_page` returns, the processor's walk then gives the frame of `p`, the other free pages stay
-- free, and nothing changes but the table entry's four bytes and the top of the free pages.
pub allocate_page-Allocates :
    (dir addr p : ℕ) (ps : List ℕ) (k : Kernel)
    → addr < kernel_base
    → walk k.mem dir addr ≡ unmapped
    → FreeList k.mem k.page_freelist (p ∷ ps)
    → kernel_base ≤ pte_at k.mem dir addr
    → (pde_at dir addr + 4 ≤ pte_at k.mem dir addr) ⊎ (pte_at k.mem dir addr + 4 ≤ pde_at dir addr)
    → Allocates dir addr p ps k (allocate_page dir addr k)
allocate_page-Allocates dir addr p ps k low absent free high apart =
    rw
      (
        allocate_page-small dir addr k low below bits.0 bits.1,
        map_page-fresh dir addr k low below bits.2 whole,
      )
      (record {
        walked =
            walk-mapped dir addr k low below apart whole bits.0 bits.1
            ∙ ap (λ t. page (t + page_offset)) free.0;
        left =
            FreeList-put k.mem (pte_at k.mem dir addr) (7 + (k.page_freelist + page_offset))
              (word_at k.mem k.page_freelist) ps high
              (subst (λ t. FreeList k.mem (word_at k.mem t) ps) (sym free.0) free.3);
        others = put_word_ne k.mem (pte_at k.mem dir addr) (7 + (k.page_freelist + page_offset));
        same = refl;
      })
  where
    bits :
        (word_at k.mem (pde_at dir addr) % 2 ≡ 1)
        × (word_at k.mem (pde_at dir addr) / 128 % 2 ≡ 0)
        × (word_at k.mem (pte_at k.mem dir addr) % 2 ≡ 0)
    bits =
        walk-unmapped (word_at k.mem (pde_at dir addr)) (word_at k.mem (pte_at k.mem dir addr))
          absent

    below : k.page_freelist < kernel_base
    below = omega (arith, free.0, free.1)

    whole : k.page_freelist % 4096 ≡ 0
    whole = omega (arith, free.0, free.2)

allocate_page-denied :
    (dir addr : ℕ) (k : Kernel)
    → (leb kernel_base k.page_freelist || leb kernel_base addr) ≡ true
    → allocate_page dir addr k ≡ ok tt k
unfolding allocate_page get_freelist
allocate_page-denied dir addr k denied = rw denied refl

allocate_page-walked :
    (dir addr : ℕ) (k : Kernel)
    → addr < kernel_base
    → k.page_freelist < kernel_base
    → (walk k.mem dir addr ≡ large) ⊎ ((q : ℕ) × (walk k.mem dir addr ≡ page q))
    → allocate_page dir addr k ≡ ok tt k
unfolding allocate_page get_freelist load decode_pde_4kib
allocate_page-walked dir addr k low free (inl is_large) =
    let bits =
      walk-large (word_at k.mem (pde_at dir addr)) (word_at k.mem (pte_at k.mem dir addr))
        is_large in
    rw
      (
        leb_of_lt {a = kernel_base} {b = k.page_freelist} free,
        leb_of_lt {a = kernel_base} {b = addr} low,
        bits.0,
        bits.1,
      )
      refl
allocate_page-walked dir addr k low free (inr (q, is_page)) =
    let bits =
      walk-page (word_at k.mem (pde_at dir addr)) (word_at k.mem (pte_at k.mem dir addr)) q
        is_page in
    allocate_page-small dir addr k low free bits.0 bits.1
    ∙ map_page-taken dir addr k low free bits.2

-- Where the free pages have run out, the address is the kernel's, or the walk ends at a 4 MiB page or
-- at a page that is mapped already, `allocate_page` returns and changes nothing.
pub allocate_page-idle :
    (dir addr : ℕ) (k : Kernel)
    → (kernel_base ≤ k.page_freelist)
      ⊎ ((kernel_base ≤ addr)
          ⊎ ((walk k.mem dir addr ≡ large) ⊎ ((q : ℕ) × (walk k.mem dir addr ≡ page q))))
    → allocate_page dir addr k ≡ ok tt k
allocate_page-idle dir addr k why = elim (lt_cases k.page_freelist kernel_base) [
  | inr out ↦
      allocate_page-denied dir addr k
        (rw (leb_of_le {a = kernel_base} {b = k.page_freelist} out) refl)
  | inl free ↦ elim (lt_cases addr kernel_base) [
    | inr high ↦ allocate_page-denied dir addr k (
        rw
          (
            leb_of_lt {a = kernel_base} {b = k.page_freelist} free,
            leb_of_le {a = kernel_base} {b = addr} high,
          )
          refl)
    | inl low ↦ elim why [
      | inl out ↦ absurd (omega (arith, out, free))
      | inr (inl high) ↦ absurd (omega (arith, high, low))
      | inr (inr walked) ↦ allocate_page-walked dir addr k low free walked
    ]
  ]
]
