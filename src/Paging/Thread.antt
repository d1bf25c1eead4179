-- ===== src/Paging/Thread.antt =====
-- The loop of `init_paging` that threads the free pages.
use loof_os.Base.{
  ℕ, zero, suc, ◌+◌, ◌*◌, ◌≤◌, ◌<◌, ◌≡◌, refl, sym, ◌∙◌, ap, subst, List, [], ◌∷◌, inl, inr, arith,
  lt_cases, add32,
}
use loof_os.Machine.{Mem, ok, word_at, put_word}
use loof_os.Machine.Words.{put_word_ne, word_at-put_word_self, word_at-put_word_ne}
use loof_os.State.{Kernel, for_loop, store}
use loof_os.State.Loop.{for_loop-ok}
use loof_os.Alloc.{kernel_base}
use loof_os.Paging.{page_size_4k, set_freelist, thread_page}
use loof_os.Paging.Walk.{FreeList}

-- `n` pages from page number `i` on.
unfoldable pub pages : ℕ → ℕ → List ℕ
pages i zero = []
pages i (suc n) = i * 4096 ∷ pages (i + 1) n

-- The pages before number `i` are linked, each to the next, and nothing in the kernel's space has
-- changed.
pub record Threaded (k : Kernel) (i : ℕ) (k' : Kernel) : Type 0 where
  pub links : (j : ℕ) → j < i → word_at k'.mem (j * 4096) ≡ (j + 1) * 4096
  pub others : (x : ℕ) → kernel_base ≤ x → k'.mem x ≡ k.mem x
  pub same : k' ≡ record k { mem = k'.mem; page_freelist = k'.page_freelist }

module _ (k : Kernel) where
  thread_page-Threaded :
      (i : ℕ) (k' : Kernel)
      → i < 786432
      → Threaded k i k'
      → (k'' : Kernel) × (thread_page i k' ≡ ok tt k'') × Threaded k (i + 1) k''
  unfolding thread_page set_freelist store
  thread_page-Threaded i k' lt f = (
    record k' {
      mem = put_word k'.mem (i * 4096) (add32 (i * 4096) page_size_4k);
      page_freelist = i * 4096;
    },
    refl,
    record {
      links = λ j below. elim (lt_cases j i) [
        | inl before ↦
            word_at-put_word_ne k'.mem (i * 4096) (add32 (i * 4096) page_size_4k) (j * 4096)
              (inl (omega (arith, before)))
            ∙ f.links j before
        | inr last ↦
            subst
              (λ m.
                word_at (put_word k'.mem (i * 4096) (add32 (i * 4096) page_size_4k)) (m * 4096)
                ≡ (m + 1) * 4096)
              (sym (at j below last))
              (word_at-put_word_self k'.mem (i * 4096) (add32 (i * 4096) page_size_4k) (omega arith)
                ∙ next)
      ];
      others = λ x high.
          put_word_ne k'.mem (i * 4096) (add32 (i * 4096) page_size_4k) x
            (inr (omega (arith, lt, high)))
          ∙ f.others x high;
      same =
          ap
            (λ (z : Kernel). record z {
              mem = put_word k'.mem (i * 4096) (add32 (i * 4096) page_size_4k);
              page_freelist = i * 4096;
            })
            f.same;
    },
  )
    where
      at : (j : ℕ) → j < i + 1 → i ≤ j → j ≡ i
      at j below last = omega arith

      next : add32 (i * 4096) page_size_4k ≡ (i + 1) * 4096
      next = omega (arith, lt)

  pub for_loop-Threaded :
      (k' : Kernel) × (for_loop 786432 0 thread_page k ≡ ok tt k') × Threaded k 786432 k'
  for_loop-Threaded = for_loop-ok 786432 thread_page (Threaded k) thread_page-Threaded k (record {
    links = λ j none. absurd (omega (arith, none));
    others = λ x high. refl;
    same = refl;
  })

-- Linked pages are free, if they reach up to the kernel.
pub FreeList-of_links :
    (h : Mem) (n i : ℕ)
    → i + n ≡ 786432
    → ((j : ℕ) → j < 786432 → word_at h (j * 4096) ≡ (j + 1) * 4096)
    → FreeList h (i * 4096) (pages i n)
unfolding pages
FreeList-of_links h zero i count links = omega (arith, count)
FreeList-of_links h (suc n) i count links = (
  refl,
  omega (arith, count),
  omega arith,
  subst (λ t. FreeList h t (pages (i + 1) n)) (sym (links i (omega (arith, count))))
      (FreeList-of_links h n (i + 1) (omega (arith, count)) links),
)
