-- ===== src/Process/Links.antt =====
-- The writes to the links of a descriptor, and the ring with its last link sent elsewhere.
use mathlib.Core.List.{Mem, Nodup, Nodup-cons, mem-cons_self, mem-cons_of_mem}
use loof_os.Base.{ℕ, ◌≡◌, ◌≢◌, refl, sym, ◌∙◌, inl, inr, List, [], ◌∷◌, eq_cases, ap, subst, arith}
use loof_os.State.{ProcessDesc}
use loof_os.Process.{update}
use loof_os.Process.Ring.{Procs, update_self, update_ne, Chain, last_of, last_mem}

-- What a descriptor holds but its links.
abbrev pub context : ProcessDesc → ProcessDesc
context d = record d { prev = 0; next = 0 }

abbrev pub set_next : Procs → ℕ → ℕ → Procs
set_next f q n = update f q (record (f q) { next = n })

abbrev pub set_prev : Procs → ℕ → ℕ → Procs
set_prev f q n = update f q (record (f q) { prev = n })

-- A field that a write does not change.
pub field-update {ℓ} :
    {A : Type ℓ} (φ : ProcessDesc → A) (f : Procs) (q : ℕ) (d : ProcessDesc)
    → φ d ≡ φ (f q)
    → (x : ℕ) → φ (update f q d x) ≡ φ (f x)
field-update φ f q d same x = elim (eq_cases x q) [
  | inl hit ↦ subst (λ y. φ (update f q d y) ≡ φ (f y)) (sym hit) (ap φ (update_self f q d) ∙ same)
  | inr (inl lt) ↦ ap φ (update_ne f q d x (omega arith))
  | inr (inr gt) ↦ ap φ (update_ne f q d x (omega arith))
]

pub prev-set_next : (f : Procs) (q n x : ℕ) → (set_next f q n x).prev ≡ (f x).prev
prev-set_next f q n x = field-update (λ d. d.prev) f q (record (f q) { next = n }) refl x

pub next-set_prev : (f : Procs) (q n x : ℕ) → (set_prev f q n x).next ≡ (f x).next
next-set_prev f q n x = field-update (λ d. d.next) f q (record (f q) { prev = n }) refl x

pub context-set_next : (f : Procs) (q n x : ℕ) → context (set_next f q n x) ≡ context (f x)
context-set_next f q n x = field-update context f q (record (f q) { next = n }) refl x

pub context-set_prev : (f : Procs) (q n x : ℕ) → context (set_prev f q n x) ≡ context (f x)
context-set_prev f q n x = field-update context f q (record (f q) { prev = n }) refl x

pub next-set_next_self : (f : Procs) (q n : ℕ) → (set_next f q n q).next ≡ n
next-set_next_self f q n =
    ap (λ (d : ProcessDesc). d.next) (update_self f q (record (f q) { next = n }))

pub prev-set_prev_self : (f : Procs) (q n : ℕ) → (set_prev f q n q).prev ≡ n
prev-set_prev_self f q n =
    ap (λ (d : ProcessDesc). d.prev) (update_self f q (record (f q) { prev = n }))

pub next-set_next_ne : (f : Procs) (q n x : ℕ) → x ≢ q → (set_next f q n x).next ≡ (f x).next
next-set_next_ne f q n x ne =
    ap (λ (d : ProcessDesc). d.next) (update_ne f q (record (f q) { next = n }) x ne)

pub prev-set_prev_ne : (f : Procs) (q n x : ℕ) → x ≢ q → (set_prev f q n x).prev ≡ (f x).prev
prev-set_prev_ne f q n x ne =
    ap (λ (d : ProcessDesc). d.prev) (update_ne f q (record (f q) { prev = n }) x ne)

-- The chain from `a` with the link of its last element sent to `p`.
pub Chain-redirect :
    (f g : Procs) (p a : ℕ) (xs : List ℕ) (b : ℕ)
    → Nodup (a ∷ xs)
    → (g (last_of a xs)).next ≡ p
    → (g p).prev ≡ last_of a xs
    → ((q : ℕ) → Mem q (a ∷ xs) → q ≢ last_of a xs → (g q).next ≡ (f q).next)
    → ((q : ℕ) → Mem q xs → (g q).prev ≡ (f q).prev)
    → Chain f a xs b
    → Chain g a xs p
Chain-redirect f g p a [] b fresh to back nexts prevs c = (to, back)
Chain-redirect f g p a (x ∷ xs) b fresh to back nexts prevs c = (
  nexts a mem-cons_self
        (λ same. (Nodup-cons.0 fresh).0 (subst (λ y. Mem y (x ∷ xs)) (sym same) (last_mem x xs)))
      ∙ c.0,
  prevs x mem-cons_self ∙ c.1,
  Chain-redirect f g p x xs b (Nodup-cons.0 fresh).1 to back (λ q m. nexts q (mem-cons_of_mem a m))
      (λ q m. prevs q (mem-cons_of_mem x m)) c.2,
)
