-- ===== src/Paging/Fill.antt =====
-- The loops of `init_paging` that fill the kernel's page directory.
use loof_os.Base.{
  ℕ, ◌+◌, ◌*◌, ◌^◌, ◌≤◌, ◌<◌, ◌≡◌, refl, sym, ◌∙◌, ap, subst, ◌⊎◌, inl, inr, arith, lt_cases,
}
use loof_os.Machine.{Cmd, ok, word_at, put_word}
use loof_os.Machine.Words.{put_word_ne, word_at-put_word_self, word_at-put_word_ne}
use loof_os.State.{Kernel, for_loop}
use loof_os.State.Loop.{for_loop-ok}

-- From word `b` of the table at `km` on, `i` words have the values `val`, and nothing else has changed.
pub record Filled (km b : ℕ) (val : ℕ → ℕ) (k : Kernel) (i : ℕ) (k' : Kernel) : Type 0 where
  pub entries : (j : ℕ) → j < i → word_at k'.mem (km + 4 * (j + b)) ≡ val j
  pub others : (x : ℕ) → (x < km + 4 * b) ⊎ (km + 4 * (b + i) ≤ x) → k'.mem x ≡ k.mem x
  pub same : k' ≡ record k { mem = k'.mem }

module _ (km b n : ℕ) (val : ℕ → ℕ) (small : (i : ℕ) → i < n → val i < 2 ^ 32)
    (body : ℕ → Cmd Kernel (Unit {0}))
    (writes : (i : ℕ) (k : Kernel)
      → i < n
      → body i k ≡ ok tt (record k { mem = put_word k.mem (km + 4 * (i + b)) (val i) }))
    (k : Kernel) where
  Filled-step :
      (i : ℕ) (k' : Kernel)
      → i < n
      → Filled km b val k i k'
      → Filled km b val k (i + 1) (record k' { mem = put_word k'.mem (km + 4 * (i + b)) (val i) })
  Filled-step i k' lt f = record {
    entries = λ j below. elim (lt_cases j i) [
      | inl before ↦
          word_at-put_word_ne k'.mem (km + 4 * (i + b)) (val i) (km + 4 * (j + b))
            (inl (omega (arith, before)))
          ∙ f.entries j before
      | inr last ↦
          subst
            (λ m. word_at (put_word k'.mem (km + 4 * (i + b)) (val i)) (km + 4 * (m + b)) ≡ val m)
            (sym (at j below last))
            (word_at-put_word_self k'.mem (km + 4 * (i + b)) (val i) (small i lt))
    ];
    others = λ x out.
        put_word_ne k'.mem (km + 4 * (i + b)) (val i) x (ground (arith, out))
        ∙ f.others x (ground (arith, out));
    same =
        ap (λ (z : Kernel). record z { mem = put_word k'.mem (km + 4 * (i + b)) (val i) }) f.same;
  }
    where
      at : (j : ℕ) → j < i + 1 → i ≤ j → j ≡ i
      at j below last = omega arith

  pub for_loop-Filled : (k' : Kernel) × (for_loop n 0 body k ≡ ok tt k') × Filled km b val k n k'
  for_loop-Filled =
      for_loop-ok n body (Filled km b val k)
        (λ i k' lt f. (
          record k' { mem = put_word k'.mem (km + 4 * (i + b)) (val i) },
          writes i k' lt,
          Filled-step i k' lt f,
        ))
        k
        (record {
          entries = λ j none. absurd (omega (arith, none));
          others = λ x out. refl;
          same = refl;
        })
