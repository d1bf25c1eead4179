-- ===== src/Process/Insert.antt =====
-- The end of `create_process`: the new process goes to the end of the queue.
use mathlib.Core.List.{Mem, Nodup, Nodup-cons, mem-cons_self, mem-cons_of_mem, Pairwise-singleton}
use loof_os.Base.{==_of_ne, ℕ, ◌≡◌, ◌≢◌, refl, sym, ◌∙◌, List, [], ◌∷◌, ◌++◌, ap, subst, ==_of_eq}
use loof_os.Machine.{Run, ok, undefined, out_of_fuel}
use loof_os.State.{ProcessDesc, Kernel}
use loof_os.Process.{update, get_current, set_current, read_process, write_process, insert_process}
use loof_os.Process.Ring.{
  Procs, update_self, update_ne, Chain, Chain-join, All, All-append, IsQueue, Nodup-swap, last_of,
  last_mem, prev-last,
}
use loof_os.Process.Links.{
  context, set_next, set_prev, field-update, prev-set_next, next-set_prev, context-set_next,
  context-set_prev, next-set_next_self, prev-set_prev_self, next-set_next_ne, prev-set_prev_ne,
  Chain-redirect,
}

-- The queue `qs` has `p` at its end, and nothing but links has changed.
pub record Inserted (k k' : Kernel) (qs : List ℕ) (p : ℕ) : Type 0 where
  queue : IsQueue k'.procs k'.current_process (qs ++ (p ∷ []))
  contexts : (q : ℕ) → context (k'.procs q) ≡ context (k.procs q)
  same : k' ≡ record k { procs = k'.procs; current_process = k'.current_process }

abbrev pub Inserts : Kernel → List ℕ → ℕ → Run Kernel (Unit {0}) → Type 0
Inserts k qs p (ok _ k') = Inserted k k' qs p
Inserts k qs p undefined = ⊥
Inserts k qs p out_of_fuel = ⊥

abbrev pub alone : Procs → ℕ → Procs
alone f p = update f p (record (f p) { next = p; prev = p })

alone-IsQueue : (f : Procs) (p : ℕ) → p ≢ 0 → IsQueue (alone f p) p (p ∷ [])
alone-IsQueue f p pos = (
  refl,
  (
    ap (λ (d : ProcessDesc). d.next) (update_self f p (record (f p) { next = p; prev = p })),
    ap (λ (d : ProcessDesc). d.prev) (update_self f p (record (f p) { next = p; prev = p })),
  ),
  Pairwise-singleton (λ (x y : ℕ). x ≢ y) p,
  (pos, tt),
)

module _ (f : Procs) (p c : ℕ) where
  abbrev first : Procs
  first = update f p (record (f p) { next = c; prev = (f c).prev })

  abbrev linked : Procs
  linked = set_prev (set_next first (first c).prev p) c p

  context-linked : (q : ℕ) → context (linked q) ≡ context (f q)
  context-linked q =
      context-set_prev (set_next first (first c).prev p) c p q
      ∙ context-set_next first (first c).prev p q
      ∙ field-update context f p (record (f p) { next = c; prev = (f c).prev }) refl q

module _ (f : Procs) (p c : ℕ) (xs : List ℕ) (pos : p ≢ 0) (fresh : ¬ Mem p (c ∷ xs))
    (chain : Chain f c xs c) (distinct : Nodup (c ∷ xs)) where
  p-ne : (q : ℕ) → Mem q (c ∷ xs) → q ≢ p
  p-ne q m same = fresh (subst (λ y. Mem y (c ∷ xs)) same m)

  last : (first f p c c).prev ≡ last_of c xs
  last =
      ap (λ (d : ProcessDesc). d.prev)
        (update_ne f p (record (f p) { next = c; prev = (f c).prev }) c (p-ne c mem-cons_self))
      ∙ prev-last f c xs c chain

  next-linked : (q : ℕ) → q ≢ last_of c xs → (linked f p c q).next ≡ (first f p c q).next
  next-linked q ne =
      next-set_prev (set_next (first f p c) (first f p c c).prev p) c p q
      ∙ next-set_next_ne (first f p c) (first f p c c).prev p q (λ same. ne (same ∙ last))

  prev-linked : (q : ℕ) → q ≢ c → (linked f p c q).prev ≡ (first f p c q).prev
  prev-linked q ne =
      prev-set_prev_ne (set_next (first f p c) (first f p c c).prev p) c p q ne
      ∙ prev-set_next (first f p c) (first f p c c).prev p q

  first-ne : (q : ℕ) → Mem q (c ∷ xs) → (first f p c) q ≡ f q
  first-ne q m = update_ne f p (record (f p) { next = c; prev = (f c).prev }) q (p-ne q m)

  p-ne-last : p ≢ last_of c xs
  p-ne-last same = p-ne (last_of c xs) (last_mem c xs) (sym same)

  front : Chain (linked f p c) c xs p
  front =
      Chain-redirect f (linked f p c) p c xs c distinct
        (next-set_prev (set_next (first f p c) (first f p c c).prev p) c p (last_of c xs)
          ∙ subst (λ l. (set_next (first f p c) (first f p c c).prev p l).next ≡ p) last
              (next-set_next_self (first f p c) (first f p c c).prev p))
        (prev-linked p (λ same. p-ne c mem-cons_self (sym same))
          ∙ ap (λ (d : ProcessDesc). d.prev)
              (update_self f p (record (f p) { next = c; prev = (f c).prev }))
          ∙ prev-last f c xs c chain)
        (λ q m ne. next-linked q ne ∙ ap (λ (d : ProcessDesc). d.next) (first-ne q m))
        (λ q m.
          prev-linked q (λ same. (Nodup-cons.0 distinct).0 (subst (λ y. Mem y xs) same m))
          ∙ ap (λ (d : ProcessDesc). d.prev) (first-ne q (mem-cons_of_mem c m)))
        chain

  back : Chain (linked f p c) p [] c
  back = (
    next-linked p p-ne-last
        ∙ ap (λ (d : ProcessDesc). d.next)
            (update_self f p (record (f p) { next = c; prev = (f c).prev })),
    prev-set_prev_self (set_next (first f p c) (first f p c c).prev p) c p,
  )

  linked-IsQueue : All (λ q. q ≢ 0) (c ∷ xs) → IsQueue (linked f p c) c (c ∷ (xs ++ (p ∷ [])))
  linked-IsQueue present = (
    refl,
    Chain-join (linked f p c) c xs p [] c front back,
    Nodup-swap (p ∷ []) (c ∷ xs) (Nodup-cons.1 (fresh, distinct)),
    All-append (λ q. q ≢ 0) (c ∷ xs) (p ∷ []) present (pos, tt),
  )

insert_process-empty :
    (k : Kernel) (p : ℕ)
    → k.current_process ≡ 0
    → insert_process p k ≡ ok tt (record k { procs = alone k.procs p; current_process = p })
unfolding insert_process get_current set_current read_process write_process
insert_process-empty k p empty = rw (==_of_eq {a = k.current_process} {b = 0} empty) refl

insert_process-ring :
    (k : Kernel) (p : ℕ)
    → k.current_process ≢ 0
    → insert_process p k ≡ ok tt (record k { procs = linked k.procs p k.current_process })
unfolding insert_process get_current set_current read_process write_process
insert_process-ring k p some = rw (==_of_ne k.current_process 0 some) refl

-- A process that is not in the queue and whose descriptor is not at address 0 goes to the end of the
-- queue, whether or not the queue is empty: `insert_process` returns, the queue is as before with
-- the new process behind, and no descriptor changes but in its links.
pub insert_process-Inserts :
    (k : Kernel) (qs : List ℕ) (p : ℕ)
    → IsQueue k.procs k.current_process qs
    → p ≢ 0
    → ¬ Mem p qs
    → Inserts k qs p (insert_process p k)
insert_process-Inserts k [] p queue pos fresh = rw (insert_process-empty k p queue) (record {
  queue = alone-IsQueue k.procs p pos;
  contexts = λ q. field-update context k.procs p (record (k.procs p) { next = p; prev = p }) refl q;
  same = refl;
})
insert_process-Inserts k (c ∷ xs) p queue pos fresh =
    rw (insert_process-ring k p (λ zero. queue.3.0 (sym queue.0 ∙ zero))) (record {
      queue =
          subst (λ x. IsQueue (linked k.procs p x) x (c ∷ (xs ++ (p ∷ [])))) (sym queue.0)
            (linked-IsQueue k.procs p c xs pos fresh queue.1 queue.2 queue.3);
      contexts = context-linked k.procs p k.current_process;
      same = refl;
    })
