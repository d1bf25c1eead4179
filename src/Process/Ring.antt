-- ===== src/Process/Ring.antt =====
-- The ring of process descriptors: what its links have to be, and what the writes of `process.c`
-- make of them.
use mathlib.Core.Path.{fun_ext}
use mathlib.Core.Logic.Or
use mathlib.Core.HLevel.{¬_prop, ⊥_prop}
use mathlib.Core.List.{
  Mem, Nodup, Nodup-cons, Pairwise-append_comm, mem-cons_self, mem-cons_of_mem, mem-append_right,
  not-mem-nil, eq-or-mem_of_mem-cons,
}
use loof_os.Base.{
  ==_of_ne, ℕ, ◌≡◌, ◌≢◌, refl, sym, ◌∙◌, inl, inr, Bool-cases, List, [], ◌∷◌, ◌++◌, ◌==◌, ==_of_eq,
  subst,
}
use loof_os.State.{ProcessDesc}
use loof_os.Process.{update}

abbrev pub Procs : Type 0
Procs = ℕ → ProcessDesc

pub update_self : (f : Procs) (p : ℕ) (d : ProcessDesc) → update f p d p ≡ d
update_self f p d = rw (==_of_eq {a = p} {b = p} refl) refl

pub update_ne : (f : Procs) (p : ℕ) (d : ProcessDesc) (q : ℕ) → q ≢ p → update f p d q ≡ f q
update_ne f p d q ne = rw (==_of_ne q p ne) refl

pub update-update :
    (f : Procs) (p : ℕ) (d d' : ProcessDesc) → update (update f p d) p d' ≡ update f p d'
update-update f p d d' =
    fun_ext λ q. elim (Bool-cases (q == p)) [ inl hit ↦ rw hit refl | inr miss ↦ rw miss refl ]

-- From `a` along `next` through `xs` to `b`, and back along `prev`.
abbrev pub Chain : Procs → ℕ → List ℕ → ℕ → Type 0
Chain f a [] b = ((f a).next ≡ b) × ((f b).prev ≡ a)
Chain f a (x ∷ xs) b = ((f a).next ≡ x) × ((f x).prev ≡ a) × Chain f x xs b

abbrev pub All : (ℕ → Type 0) → List ℕ → Type 0
All P [] = Unit {0}
All P (x ∷ xs) = P x × All P xs

-- The processes in the order in which they take turns, the current one first.
abbrev pub IsQueue : Procs → ℕ → List ℕ → Type 0
IsQueue f c [] = c ≡ 0
IsQueue f c (x ∷ xs) = (c ≡ x) × Chain f x xs x × Nodup (x ∷ xs) × All (λ q. q ≢ 0) (x ∷ xs)

pub All-append : (P : ℕ → Type 0) (xs ys : List ℕ) → All P xs → All P ys → All P (xs ++ ys)
All-append P [] ys a b = b
All-append P (x ∷ xs) ys a b = (a.0, All-append P xs ys a.1 b)

All-left : (P : ℕ → Type 0) (xs ys : List ℕ) → All P (xs ++ ys) → All P xs
All-left P [] ys a = tt
All-left P (x ∷ xs) ys a = (a.0, All-left P xs ys a.1)

All-right : (P : ℕ → Type 0) (xs ys : List ℕ) → All P (xs ++ ys) → All P ys
All-right P [] ys a = a
All-right P (x ∷ xs) ys a = All-right P xs ys a.1

pub All-swap : (P : ℕ → Type 0) (xs ys : List ℕ) → All P (xs ++ ys) → All P (ys ++ xs)
All-swap P xs ys a = All-append P ys xs (All-right P xs ys a) (All-left P xs ys a)

pub Nodup-swap : (xs ys : List ℕ) → Nodup (xs ++ ys) → Nodup (ys ++ xs)
Nodup-swap xs ys = (Pairwise-append_comm (λ (a b : ℕ). ¬_prop) (λ x y ne e. ne (sym e)) xs ys).0

abbrev pub last_of : ℕ → List ℕ → ℕ
last_of a [] = a
last_of a (x ∷ xs) = last_of x xs

module _ (f : Procs) where
  pub Chain-split :
      (a : ℕ) (xs : List ℕ) (y : ℕ) (ys : List ℕ) (b : ℕ)
      → Chain f a (xs ++ (y ∷ ys)) b
      → Chain f a xs y × Chain f y ys b
  Chain-split a [] y ys b c = ((c.0, c.1), c.2)
  Chain-split a (x ∷ xs) y ys b c =
      let rest = Chain-split x xs y ys b c.2 in ((c.0, c.1, rest.0), rest.1)

  pub Chain-join :
      (a : ℕ) (xs : List ℕ) (y : ℕ) (ys : List ℕ) (b : ℕ)
      → Chain f a xs y
      → Chain f y ys b
      → Chain f a (xs ++ (y ∷ ys)) b
  Chain-join a [] y ys b c d = (c.0, c.1, d)
  Chain-join a (x ∷ xs) y ys b c d = (c.0, c.1, Chain-join x xs y ys b c.2 d)

  -- The queue when `y` comes to its head.
  pub IsQueue-turn :
      (c : ℕ) (xs : List ℕ) (y : ℕ) (ys : List ℕ)
      → IsQueue f c (c ∷ (xs ++ (y ∷ ys)))
      → IsQueue f y ((y ∷ ys) ++ (c ∷ xs))
  IsQueue-turn c xs y ys q =
      let halves = Chain-split c xs y ys c q.1 in
      (
        refl,
        Chain-join y ys c xs y halves.1 halves.0,
        Nodup-swap (c ∷ xs) (y ∷ ys) q.2,
        All-swap (λ p. p ≢ 0) (c ∷ xs) (y ∷ ys) q.3,
      )

  pub prev-last : (a : ℕ) (xs : List ℕ) (b : ℕ) → Chain f a xs b → (f b).prev ≡ last_of a xs
  prev-last a [] b c = c.1
  prev-last a (x ∷ xs) b c = prev-last x xs b c.2

pub last_mem : (a : ℕ) (xs : List ℕ) → Mem (last_of a xs) (a ∷ xs)
last_mem a [] = mem-cons_self
last_mem a (x ∷ xs) = mem-cons_of_mem a (last_mem x xs)

-- Writes that keep the links keep the chain.
pub Chain-same :
    (f g : Procs) (a : ℕ) (xs : List ℕ) (b : ℕ)
    → ((q : ℕ) → ((g q).next ≡ (f q).next) × ((g q).prev ≡ (f q).prev))
    → Chain f a xs b
    → Chain g a xs b
Chain-same f g a [] b same c = ((same a).0 ∙ c.0, (same b).1 ∙ c.1)
Chain-same f g a (x ∷ xs) b same c =
    ((same a).0 ∙ c.0, (same x).1 ∙ c.1, Chain-same f g x xs b same c.2)

pub All-map : (P Q : ℕ → Type 0) (xs : List ℕ) → ((q : ℕ) → P q → Q q) → All P xs → All Q xs
All-map P Q [] sub a = tt
All-map P Q (x ∷ xs) sub a = (sub x a.0, All-map P Q xs sub a.1)

-- In a queue with more than one process, none comes after itself.
pub head-ne : (c : ℕ) (xs : List ℕ) (y : ℕ) (ys : List ℕ) → Nodup (c ∷ (xs ++ (y ∷ ys))) → y ≢ c
head-ne c xs y ys fresh same =
    (Nodup-cons.0 fresh).0
      (subst (λ z. Mem z (xs ++ (y ∷ ys))) same (mem-append_right xs mem-cons_self))

pub next-ne :
    (f : Procs) (c : ℕ) (xs : List ℕ) (y : ℕ) (ys : List ℕ)
    → Chain f c (xs ++ (y ∷ ys)) c
    → Nodup (c ∷ (xs ++ (y ∷ ys)))
    → (f c).next ≢ c
next-ne f c [] y ys chain fresh same = head-ne c [] y ys fresh (sym chain.0 ∙ same)
next-ne f c (x ∷ xs) y ys chain fresh same =
    head-ne c [] x (xs ++ (y ∷ ys)) fresh (sym chain.0 ∙ same)

pub Nodup-from : (q : ℕ) (xs : List ℕ) → All (λ x. q ≢ x) xs → Nodup xs → Nodup (q ∷ xs)
Nodup-from q xs apart fresh = Nodup-cons.1 (absent xs apart, fresh)
  where
    absent : (ys : List ℕ) → All (λ x. q ≢ x) ys → ¬ Mem q ys
    absent [] a m = not-mem-nil m
    absent (y ∷ ys) a m = Or.elim ⊥_prop (eq-or-mem_of_mem-cons m) a.0 (absent ys a.1)

-- A process that stands once in the queue is not in its rest.
pub others-ne : (c : ℕ) (qs : List ℕ) → ¬ Mem c qs → All (λ q. q ≢ c) qs
others-ne c [] out = tt
others-ne c (q ∷ qs) out = (
  (λ same. out (subst (λ x. Mem x (q ∷ qs)) same mem-cons_self)),
  others-ne c qs (λ m. out (mem-cons_of_mem q m)),
)
