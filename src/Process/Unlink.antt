-- ===== src/Process/Unlink.antt =====
-- The ring once the current process is taken out of it.
use mathlib.Core.List.{Mem, Nodup, Nodup-cons}
use loof_os.Base.{ℕ, ◌≡◌, ◌≢◌, sym, ◌∙◌, subst, List, ◌∷◌}
use loof_os.Process.Ring.{Procs, Chain, last_of, last_mem, prev-last}
use loof_os.Process.Links.{
  context, set_next, set_prev, prev-set_next, next-set_prev, context-set_next, context-set_prev,
  next-set_next_self, prev-set_prev_self, next-set_next_ne, prev-set_prev_ne, Chain-redirect,
}

-- `current_process->prev->next = current_process->next` and the line after it.
abbrev pub unlinked : Procs → ℕ → Procs
unlinked f c = let f' = set_next f (f c).prev (f c).next in set_prev f' (f' c).next (f' c).prev

module _ (f : Procs) (c n : ℕ) (xs : List ℕ) (chain : Chain f c (n ∷ xs) c)
    (distinct : Nodup (c ∷ n ∷ xs)) where
  abbrev step : Procs
  step = set_next f (f c).prev (f c).next

  last : (f c).prev ≡ last_of n xs
  last = prev-last f c (n ∷ xs) c chain

  c-ne : (q : ℕ) → Mem q (n ∷ xs) → q ≢ c
  c-ne q m same = (Nodup-cons.0 distinct).0 (subst (λ y. Mem y (n ∷ xs)) same m)

  c-next : (step c).next ≡ n
  c-next =
      next-set_next_ne f (f c).prev (f c).next c
        (λ same. c-ne (last_of n xs) (last_mem n xs) (sym (same ∙ last)))
      ∙ chain.0

  c-prev : (step c).prev ≡ last_of n xs
  c-prev = prev-set_next f (f c).prev (f c).next c ∙ last

  next-unlinked : (q : ℕ) → (unlinked f c q).next ≡ (step q).next
  next-unlinked q = next-set_prev step (step c).next (step c).prev q

  prev-unlinked : (q : ℕ) → q ≢ n → (unlinked f c q).prev ≡ (f q).prev
  prev-unlinked q ne =
      prev-set_prev_ne step (step c).next (step c).prev q (λ same. ne (same ∙ c-next))
      ∙ prev-set_next f (f c).prev (f c).next q

  pub Chain-unlinked : Chain (unlinked f c) n xs n
  Chain-unlinked =
      Chain-redirect f (unlinked f c) n n xs c (Nodup-cons.0 distinct).1
        (next-unlinked (last_of n xs)
          ∙ subst (λ l. (set_next f (f c).prev (f c).next l).next ≡ n) last
              (next-set_next_self f (f c).prev (f c).next ∙ chain.0))
        (subst (λ m. (unlinked f c m).prev ≡ last_of n xs) c-next
          (prev-set_prev_self step (step c).next (step c).prev ∙ c-prev))
        (λ q m ne.
          next-unlinked q ∙ next-set_next_ne f (f c).prev (f c).next q (λ same. ne (same ∙ last)))
        (λ q m.
          prev-unlinked q
            (λ same. (Nodup-cons.0 (Nodup-cons.0 distinct).1).0 (subst (λ y. Mem y xs) same m)))
        chain.2

  pub c-next-unlinked : (unlinked f c c).next ≡ n
  c-next-unlinked = next-unlinked c ∙ c-next

pub context-unlinked : (f : Procs) (c q : ℕ) → context (unlinked f c q) ≡ context (f q)
context-unlinked f c q =
    context-set_prev (set_next f (f c).prev (f c).next) (set_next f (f c).prev (f c).next c).next
      (set_next f (f c).prev (f c).next c).prev q
    ∙ context-set_next f (f c).prev (f c).next q
