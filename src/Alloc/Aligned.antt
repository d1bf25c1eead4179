-- ===== src/Alloc/Aligned.antt =====
-- The buddy discipline: a block starts at a multiple of its own width, counted from the heap's
-- start. `first_fit` keeps it.
use native.Mathlib.Nat.{add-zero}
use loof_os.Base.{
  ℕ, zero, suc, ◌+◌, ◌-◌, ◌*◌, ◌^◌, ◌≡◌, inl, inr, sym, subst, ap, true, false, List, [], ◌∷◌, ◌++◌,
  arith, Bool-cases,
}
use loof_os.Alloc.Blocks.{Block, block, pieces, Fit, fits, first_fit}
use loof_os.Alloc.Contract.{total, OnFit, OnFit-behind, width_suc, total-pieces, fits-cases}

-- `a` is a multiple of the width `2 ^ s`, counted from `start`.
abbrev pub Multiple : ℕ → ℕ → ℕ → Type 0
Multiple start s a = (q : ℕ) × (a ≡ start + q * 2 ^ s)

abbrev pub IsAligned : ℕ → ℕ → List Block → Type 0
IsAligned start a [] = Unit {0}
IsAligned start a (b ∷ bs) = Multiple start b.size a × IsAligned start (a + 2 ^ b.size) bs

module _ (start : ℕ) where
  IsAligned-append :
      (a : ℕ) (xs ys : List Block)
      → IsAligned start a xs
      → IsAligned start (a + total xs) ys
      → IsAligned start a (xs ++ ys)
  unfolding total
  IsAligned-append a [] ys p q = subst (λ m. IsAligned start m ys) (omega arith) q
  IsAligned-append a (x ∷ xs) ys p q = (
    p.0,
    IsAligned-append (a + 2 ^ x.size) xs ys p.1 (subst (λ m. IsAligned start m ys) (omega arith) q),
  )

  -- Both halves of an aligned block are aligned.
  Multiple-halves :
      (n k a : ℕ)
      → Multiple start (n + suc k) a
      → Multiple start (n + k) a × Multiple start (n + k) (a + 2 ^ (n + k))
  Multiple-halves n k a (q, e) = (
    (2 * q, omega (arith, ap (λ (w : ℕ). q * w) (width_suc n k))),
    (2 * q + 1, omega (arith, width_suc n k, ap (λ (w : ℕ). q * w) (width_suc n k))),
  )

  -- So is every piece that is split off.
  IsAligned-pieces :
      (n k a : ℕ)
      → Multiple start (n + k) a
      → Multiple start n a × IsAligned start (a + 2 ^ n) (pieces n k)
  unfolding pieces
  IsAligned-pieces n zero a m = (rw (add-zero n) at m, tt)
  IsAligned-pieces n (suc k) a m =
      let (low, high) = Multiple-halves n k a m in
      let (here, rest) = IsAligned-pieces n k a low in
      (
        here,
        IsAligned-append (a + 2 ^ n) (pieces n k) (block (n + k) false ∷ []) rest
            (subst (λ x. Multiple start (n + k) x) (omega (arith, total-pieces n k)) high, tt),
      )

-- The new block is aligned to its own size, and so are all blocks afterwards.
pub record Aligns (start n a : ℕ) (f : Fit) : Type 0 where
  pub aligned : IsAligned start a f.blocks
  pub multiple : Multiple start n f.address

module _ (start n : ℕ) where
  Aligns-hit :
      (a : ℕ) (c : Block) (bs : List Block)
      → fits n c ≡ true
      → IsAligned start a (c ∷ bs)
      → Aligns start n a (record {
        address = a;
        found = c.size;
        blocks = block n true ∷ (pieces n (c.size - n) ++ bs);
      })
  Aligns-hit a c bs hit p =
      let whole : n + (c.size - n) ≡ c.size = (fits-cases n c hit).1 in
      let (here, rest) =
        IsAligned-pieces start n (c.size - n) a (subst (λ s. Multiple start s a) (sym whole) p.0) in
      let width : 2 ^ (n + (c.size - n)) ≡ 2 ^ c.size = ap (λ s. 2 ^ s) whole in
      record {
        aligned = (
          here,
          IsAligned-append start (a + 2 ^ n) (pieces n (c.size - n)) bs rest
              (subst (λ x. IsAligned start x bs) (omega (arith, total-pieces n (c.size - n))) p.1),
        );
        multiple = here;
      }

  pub first_fit-Aligns :
      (a : ℕ) (bs : List Block) → IsAligned start a bs → OnFit (Aligns start n a) (first_fit n a bs)
  unfolding first_fit
  first_fit-Aligns a [] p = tt
  first_fit-Aligns a (c ∷ bs) p = elim (Bool-cases (fits n c)) [
    | inl hit ↦ rw hit (Aligns-hit a c bs hit p)
    | inr miss ↦ rw miss (
        OnFit-behind (Aligns start n (a + 2 ^ c.size)) (Aligns start n a) c
          (first_fit n (a + 2 ^ c.size) bs)
          (λ f k. record { aligned = (p.0, k.aligned); multiple = k.multiple })
          (first_fit-Aligns (a + 2 ^ c.size) bs p.1))
  ]
