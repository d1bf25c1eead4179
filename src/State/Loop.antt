-- ===== src/State/Loop.antt =====
-- The rule for `for` loops.
use loof_os.Base.{ℕ, zero, suc, ◌+◌, ◌<◌, ◌≡◌, refl, ◌∙◌, arith, subst, ap}
use loof_os.Machine.{ok, Cmd, Run, and_then}
use loof_os.State.{Kernel, for_loop}

module _ (n : ℕ) (body : ℕ → Cmd Kernel (Unit {0})) (I : ℕ → Kernel → Type 0)
    (step : (i : ℕ) (k : Kernel)
      → i < n
      → I i k
      → (k' : Kernel) × (body i k ≡ ok tt k') × I (i + 1) k') where
  for_loop-rule :
      (left i : ℕ) (k : Kernel)
      → i + left ≡ n
      → I i k
      → (k' : Kernel) × (for_loop left i body k ≡ ok tt k') × I n k'
  unfolding for_loop
  for_loop-rule zero i k count inv = (k, refl, subst (λ m. I m k) last inv)
    where
      last : i ≡ n
      last = omega (arith, count)
  for_loop-rule (suc left) i k count inv =
      let next = step i k (omega (arith, count)) inv in
      let rest = for_loop-rule left (i + 1) next.0 (omega (arith, count)) next.2 in
      (
        rest.0,
        ap (λ (r : Run Kernel (Unit {0})). and_then r (λ _. for_loop left (i + 1) body)) next.1
            ∙ rest.1,
        rest.2,
      )

  -- A loop whose body returns and keeps `I` returns, with `I` at the last round's end.
  pub for_loop-ok : (k : Kernel) → I 0 k → (k' : Kernel) × (for_loop n 0 body k ≡ ok tt k') × I n k'
  for_loop-ok k inv = for_loop-rule n 0 k (omega arith) inv
