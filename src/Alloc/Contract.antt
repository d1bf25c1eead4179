-- ===== src/Alloc/Contract.antt =====
-- What `first_fit` does to a list of blocks: those in use stay where they are, and the bytes that
-- the new block may use are apart from theirs.
use mathlib.Core.Option
use native.Mathlib.Nat.{add-zero}
use loof_os.Base.{
  ℕ, zero, suc, ◌+◌, ◌-◌, ◌*◌, ◌^◌, ◌≤◌, ◌≡◌, ◌⊎◌, inl, inr, subst, ap, true, false, Option, none,
  some, List, [], ◌∷◌, ◌++◌, arith, Bool-cases, pow-suc,
}
use loof_os.Alloc.Blocks.{Block, block, At, pieces, Fit, behind, fits, first_fit}

unfoldable pub total : List Block → ℕ
total [] = 0
total (b ∷ bs) = 2 ^ b.size + total bs

-- A statement about the outcome, where there is one.
abbrev pub OnFit : (Fit → Type 0) → Option Fit → Type 0
OnFit P none = Unit {0}
OnFit P (some f) = P f

-- A block in use keeps its place, and the new block's bytes are apart from it.
pub record Keeps (q : ℕ) (b : Block) (a : ℕ) (f : Fit) : Type 0 where
  pub stays : At q b a f.blocks
  pub apart : (q + 2 ^ b.size ≤ f.address) ⊎ (f.address + 2 ^ f.found ≤ q)

pub OnFit-behind :
    (P Q : Fit → Type 0) (c : Block) (o : Option Fit)
    → ((f : Fit) → P f → Q (behind c f))
    → OnFit P o
    → OnFit Q (Option.map (behind c) o)
OnFit-behind P Q c none g p = tt
OnFit-behind P Q c (some f) g p = g f p

OnFit-zip :
    (P Q R : Fit → Type 0) (o : Option Fit)
    → ((f : Fit) → P f → Q f → R f)
    → OnFit P o
    → OnFit Q o
    → OnFit R o
OnFit-zip P Q R none g p q = tt
OnFit-zip P Q R (some f) g p q = g f p q

pub At-le : (q : ℕ) (b : Block) (a : ℕ) (bs : List Block) → At q b a bs → a ≤ q
At-le q b a [] t = absurd t
At-le q b a (c ∷ bs) (inl t) = omega arith
At-le q b a (c ∷ bs) (inr t) = omega (arith, At-le q b (a + 2 ^ c.size) bs t)

-- A block behind the blocks `xs`.
At-append :
    (q : ℕ) (b : Block) (a : ℕ) (xs bs : List Block)
    → At q b (a + total xs) bs
    → At q b a (xs ++ bs)
unfolding total
At-append q b a [] bs t = subst (λ m. At q b m bs) (omega arith) t
At-append q b a (c ∷ xs) bs t =
    inr (At-append q b (a + 2 ^ c.size) xs bs (subst (λ m. At q b m bs) (omega arith) t))

total-append : (xs ys : List Block) → total (xs ++ ys) ≡ total xs + total ys
unfolding total
total-append [] ys = omega arith
total-append (x ∷ xs) ys = omega (arith, total-append xs ys)

pub add_suc : (n k : ℕ) → n + suc k ≡ suc (n + k)
add_suc n k = omega arith

pub width_suc : (n k : ℕ) → 2 ^ (n + suc k) ≡ 2 * 2 ^ (n + k)
width_suc n k = rw (add_suc n k) (omega (arith, pow-suc 2 (n + k)))

-- The pieces and the block itself fill what was found.
pub total-pieces : (n k : ℕ) → 2 ^ n + total (pieces n k) ≡ 2 ^ (n + k)
unfolding pieces total
total-pieces n zero = rw (add-zero n) (omega arith)
total-pieces n (suc k) =
    omega
      (arith, total-pieces n k, total-append (pieces n k) (block (n + k) false ∷ []), width_suc n k)

pub fits-cases :
    (n : ℕ) (c : Block) → (fits n c ≡ true) → (c.used ≡ false) × (n + (c.size - n) ≡ c.size)
fits-cases n c hit = ground arith

module _ (n : ℕ) where
  first_fit-address : (a : ℕ) (bs : List Block) → OnFit (λ f. a ≤ f.address) (first_fit n a bs)
  unfolding first_fit
  first_fit-address a [] = tt
  first_fit-address a (c ∷ bs) = elim (Bool-cases (fits n c)) [
    | inl hit ↦ rw hit (omega arith)
    | inr miss ↦ rw miss (
        OnFit-behind (λ f. a + 2 ^ c.size ≤ f.address) (λ f. a ≤ f.address) c
          (first_fit n (a + 2 ^ c.size) bs) (λ f p. omega arith)
          (first_fit-address (a + 2 ^ c.size) bs))
  ]

  -- What is found is large enough.
  pub first_fit-found : (a : ℕ) (bs : List Block) → OnFit (λ f. n ≤ f.found) (first_fit n a bs)
  unfolding first_fit
  first_fit-found a [] = tt
  first_fit-found a (c ∷ bs) = elim (Bool-cases (fits n c)) [
    | inl hit ↦ rw hit (omega (arith, (fits-cases n c hit).1))
    | inr miss ↦ rw miss (
        OnFit-behind (λ f. n ≤ f.found) (λ f. n ≤ f.found) c (first_fit n (a + 2 ^ c.size) bs)
          (λ f p. p) (first_fit-found (a + 2 ^ c.size) bs))
  ]

  module _ (q : ℕ) (b : Block) (live : b.used ≡ true) (a : ℕ) (c : Block) (bs : List Block) where
    Keeps-hit :
        fits n c ≡ true
        → At q b a (c ∷ bs)
        → Keeps q b a (record {
          address = a;
          found = c.size;
          blocks = block n true ∷ (pieces n (c.size - n) ++ bs);
        })
    Keeps-hit hit (inl (_, same)) = absurd (clash (fits-cases n c hit).0)
      where
        clash : c.used ≡ false → ⊥
        clash unused = cc (ap (λ (x : Block). x.used) same)
    Keeps-hit hit (inr t) = record {
      stays =
          inr (
            At-append q b (a + 2 ^ n) (pieces n (c.size - n)) bs
              (subst (λ m. At q b m bs) width t));
      apart = inr (At-le q b (a + 2 ^ c.size) bs t);
    }
      where
        width : a + 2 ^ c.size ≡ a + 2 ^ n + total (pieces n (c.size - n))
        width =
            let whole : 2 ^ (n + (c.size - n)) ≡ 2 ^ c.size =
              ap (λ s. 2 ^ s) (fits-cases n c hit).1 in
            omega (arith, total-pieces n (c.size - n))

    Keeps-miss :
        (o : Option Fit)
        → OnFit (λ f. a + 2 ^ c.size ≤ f.address) o
        → (At q b (a + 2 ^ c.size) bs → OnFit (Keeps q b (a + 2 ^ c.size)) o)
        → At q b a (c ∷ bs)
        → OnFit (Keeps q b a) (Option.map (behind c) o)
    Keeps-miss o beyond later (inl here) =
        OnFit-behind (λ f. a + 2 ^ c.size ≤ f.address) (Keeps q b a) c o
          (λ f p. record {
            stays = inl here;
            apart = inl (
                let same : 2 ^ b.size ≡ 2 ^ c.size = ap (λ (x : Block). 2 ^ x.size) here.1 in
                omega arith);
          })
          beyond
    Keeps-miss o beyond later (inr t) =
        OnFit-behind (Keeps q b (a + 2 ^ c.size)) (Keeps q b a) c o
          (λ f k. record { stays = inr k.stays; apart = k.apart }) (later t)

  -- A block in use stays at its address, and lies outside the bytes that the search may change.
  pub first_fit-Keeps :
      (q : ℕ) (b : Block) (live : b.used ≡ true) (a : ℕ) (bs : List Block)
      → At q b a bs
      → OnFit (Keeps q b a) (first_fit n a bs)
  unfolding first_fit
  first_fit-Keeps q b live a [] t = absurd t
  first_fit-Keeps q b live a (c ∷ bs) t = elim (Bool-cases (fits n c)) [
    | inl hit ↦ rw hit (Keeps-hit q b live a c bs hit t)
    | inr miss ↦ rw miss (
        Keeps-miss q b live a c bs (first_fit n (a + 2 ^ c.size) bs)
          (first_fit-address (a + 2 ^ c.size) bs) (first_fit-Keeps q b live (a + 2 ^ c.size) bs) t)
  ]
