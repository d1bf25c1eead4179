-- ===== src/Process/Halt.antt =====
-- `switch_process` when every process is halted.
use loof_os.Base.{==_of_ne, ℕ, zero, suc, ◌≡◌, refl, ◌∙◌, List, [], ◌∷◌, ◌++◌, ==_of_eq}
use loof_os.Machine.{ok, out_of_fuel}
use loof_os.Registers.{GenRegisterSet, SegRegisterSet, InterruptFrame}
use loof_os.State.{ProcessDesc, Kernel}
use loof_os.Process.{
  update, get_current, set_current, read_process, leave_process, next_process, switch_process,
}
use loof_os.Process.Ring.{Procs, Chain, Chain-same, All, IsQueue, All-map, next-ne}
use loof_os.Process.Links.{field-update}
use loof_os.Process.Ring.{Chain-join, Chain-same, All-append}
use loof_os.Process.Freeze.{noted, noted_field, note_stack-noted}
use loof_os.Process.Turn.{IsHalted}

next_process-hangs :
    (rounds : ℕ) (k : Kernel) (xs : List ℕ)
    → Chain k.procs k.current_process xs k.current_process
    → All (IsHalted k.procs) (k.current_process ∷ xs)
    → next_process rounds k ≡ out_of_fuel
unfolding next_process get_current read_process set_current
next_process-hangs zero k xs chain halted = refl
next_process-hangs (suc rounds) k [] chain halted =
    rw (chain.0, ==_of_eq {a = (k.procs k.current_process).state} {b = 1} halted.0)
      (next_process-hangs rounds k [] chain halted)
next_process-hangs (suc rounds) k (x ∷ xs) chain halted =
    rw (chain.0, ==_of_eq {a = (k.procs x).state} {b = 1} halted.1.0)
      (next_process-hangs rounds (record k { current_process = x }) (xs ++ (k.current_process ∷ []))
        (Chain-join k.procs x xs k.current_process [] x chain.2 (chain.0, chain.1))
        (
          halted.1.0,
          All-append (IsHalted k.procs) xs (k.current_process ∷ []) halted.1.1 (halted.0, tt),
        ))

module _ (seg_regs : SegRegisterSet) (gen_regs : GenRegisterSet) (frame : InterruptFrame)
    (k : Kernel) where
  abbrev noted_procs : Procs
  noted_procs = update k.procs k.current_process (noted frame (k.procs k.current_process))

  kept {ℓ} :
      {A : Type ℓ} (φ : ProcessDesc → A)
      → ((d : ProcessDesc) (fr : InterruptFrame) (gr : GenRegisterSet)
          → φ (record d { frame = fr; gen_regs = gr }) ≡ φ d)
      → (q : ℕ) → φ (noted_procs q) ≡ φ (k.procs q)
  kept φ keeps =
      field-update φ k.procs k.current_process (noted frame (k.procs k.current_process))
        (noted_field φ frame keeps (k.procs k.current_process))

  leave_process-halted :
      (rounds : ℕ)
      → (k.procs k.current_process).state ≡ 1
      → leave_process rounds k.current_process seg_regs gen_regs frame k ≡ ok tt k
  unfolding leave_process read_process
  leave_process-halted rounds halted = rw halted refl

  -- Where every process of the queue is halted and there is more than one, `switch_process` does not
  -- return for any number of rounds: its loop goes round the ring for ever.
  pub switch_process-hangs :
      (rounds x : ℕ) (xs : List ℕ)
      → IsQueue k.procs k.current_process (k.current_process ∷ x ∷ xs)
      → All (IsHalted k.procs) (k.current_process ∷ x ∷ xs)
      → switch_process rounds seg_regs gen_regs frame k ≡ out_of_fuel
  unfolding switch_process get_current read_process
  switch_process-hangs rounds x xs queue halted =
      rw
        (
          ==_of_ne k.current_process 0 queue.3.0,
          ==_of_ne (k.procs k.current_process).next k.current_process
              (next-ne k.procs k.current_process [] x xs queue.1 queue.2),
          leave_process-halted rounds halted.0,
          note_stack-noted frame k,
          next_process-hangs rounds (record k { procs = noted_procs }) (x ∷ xs)
              (Chain-same k.procs noted_procs k.current_process (x ∷ xs) k.current_process
                (λ q.
                  (kept (λ d. d.next) (λ d fr gr. refl) q, kept (λ d. d.prev) (λ d fr gr. refl) q))
                queue.1)
              (All-map (IsHalted k.procs) (IsHalted noted_procs) (k.current_process ∷ x ∷ xs)
                (λ q h. kept (λ d. d.state) (λ d fr gr. refl) q ∙ h) halted),
        )
        refl
