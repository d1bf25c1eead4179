-- ===== src/Process/Turn.antt =====
-- `switch_process` at an interrupted process that runs: whose turn comes next.
use loof_os.Base.{
  ==_of_ne, ℕ, zero, suc, ◌<◌, ◌≡◌, ◌≢◌, refl, sym, ◌∙◌, List, [], ◌∷◌, ◌++◌, ==_of_eq, sub32,
  arith, length,
}
use loof_os.Machine.{ok, ◌>>◌}
use loof_os.Registers.{GenRegisterSet, SegRegisterSet, InterruptFrame}
use loof_os.State.{ProcessDesc, Kernel}
use loof_os.Alloc.{kernel_base}
use loof_os.Process.{
  Switch, enters, get_current, set_current, read_process, set_tss_stack, next_process,
  enter_current, switch_process,
}
use loof_os.Process.Ring.{
  Procs, update_ne, Chain, Chain-split, All, IsQueue, IsQueue-turn, All-map, next-ne, head-ne,
}
use loof_os.Process.Freeze.{freeze, freezes, frozen_procs, Chain-kept, state-kept}

abbrev pub IsHalted : Procs → ℕ → Type 0
IsHalted f q = (f q).state ≡ 1

pub next_process-lands :
    (rounds : ℕ) (k : Kernel) (skipped : List ℕ) (y : ℕ)
    → Chain k.procs k.current_process skipped y
    → All (IsHalted k.procs) skipped
    → ¬ IsHalted k.procs y
    → length skipped < rounds
    → next_process rounds k ≡ ok tt (record k { current_process = y })
unfolding next_process get_current read_process set_current
next_process-lands zero k skipped y chain halted awake enough = absurd (omega (arith, enough))
next_process-lands (suc rounds) k [] y chain halted awake enough =
    rw (chain.0, ==_of_ne (k.procs y).state 1 awake) refl
next_process-lands (suc rounds) k (x ∷ xs) y chain halted awake enough =
    rw (chain.0, ==_of_eq {a = (k.procs x).state} {b = 1} halted.0)
      (next_process-lands rounds (record k { current_process = x }) xs y chain.2 halted.1 awake
        (omega (arith, enough)))

-- The processor's state that a descriptor asks for.
abbrev pub entering : ProcessDesc → Switch
entering d = enters d.seg_regs d.gen_regs d.frame (sub32 d.page_directory kernel_base)

module _ (seg_regs : SegRegisterSet) (gen_regs : GenRegisterSet) (frame : InterruptFrame) where
  -- The rest of the routine, once the switch is not refused.
  switch_process-freezes :
      (rounds : ℕ) (k : Kernel)
      → k.current_process ≢ 0
      → (k.procs k.current_process).next ≢ k.current_process
      → (k.procs k.current_process).state ≡ 0
      → switch_process rounds seg_regs gen_regs frame k
        ≡ (next_process rounds >> enter_current)
            (record k { procs = frozen_procs seg_regs gen_regs frame k })
  unfolding switch_process get_current read_process
  switch_process-freezes rounds k some more running =
      rw
        (
          ==_of_ne k.current_process 0 some,
          ==_of_ne (k.procs k.current_process).next k.current_process more,
        )
        (freezes seg_regs gen_regs frame rounds k (next_process rounds >> enter_current) running)

  switch_process-lands :
      (rounds : ℕ) (k : Kernel) (skipped : List ℕ) (y : ℕ)
      → k.current_process ≢ 0
      → (k.procs k.current_process).next ≢ k.current_process
      → (k.procs k.current_process).state ≡ 0
      → Chain k.procs k.current_process skipped y
      → All (IsHalted k.procs) skipped
      → ¬ IsHalted k.procs y
      → length skipped < rounds
      → switch_process rounds seg_regs gen_regs frame k
        ≡ enter_current
            (record k { procs = frozen_procs seg_regs gen_regs frame k; current_process = y })
  switch_process-lands rounds k skipped y some more running chain halted awake enough =
      rw
        (
          switch_process-freezes rounds k some more running,
          next_process-lands rounds (record k { procs = frozen_procs seg_regs gen_regs frame k })
              skipped y (Chain-kept seg_regs gen_regs frame k k.current_process skipped y chain)
              (All-map (IsHalted k.procs) (IsHalted (frozen_procs seg_regs gen_regs frame k))
                skipped (λ q h. state-kept seg_regs gen_regs frame k q ∙ h) halted)
              (λ h. awake (sym (state-kept seg_regs gen_regs frame k y) ∙ h)) enough,
        )
        refl

  -- In a queue where the current process runs and `skipped` halted ones come before `y`, which is
  -- not halted: with more rounds than are skipped, `switch_process` saves the interrupted process's
  -- registers in its descriptor, enters `y` with the registers, the page directory and the kernel
  -- stack that its descriptor holds, and changes nothing else; the queue is the same ring with `y`
  -- at its head.
  pub switch_process-turns :
      (rounds : ℕ) (k : Kernel) (skipped : List ℕ) (y : ℕ) (rest : List ℕ)
      → IsQueue k.procs k.current_process (k.current_process ∷ (skipped ++ (y ∷ rest)))
      → (k.procs k.current_process).state ≡ 0
      → All (IsHalted k.procs) skipped
      → ¬ IsHalted k.procs y
      → length skipped < rounds
      → (switch_process rounds seg_regs gen_regs frame k
          ≡ ok (entering (k.procs y)) (record k {
            procs = frozen_procs seg_regs gen_regs frame k;
            current_process = y;
            tss_esp0 = (k.procs y).esp0;
          }))
        × IsQueue
            (frozen_procs seg_regs gen_regs frame k)
            y
            ((y ∷ rest) ++ (k.current_process ∷ skipped))
  unfolding enter_current get_current read_process set_tss_stack
  switch_process-turns rounds k skipped y rest queue running halted awake enough = (
    rw
        (
          switch_process-lands rounds k skipped y queue.3.0
              (next-ne k.procs k.current_process skipped y rest queue.1 queue.2) running
              (Chain-split k.procs k.current_process skipped y rest k.current_process queue.1).0
              halted awake enough,
          update_ne k.procs k.current_process
              (freeze seg_regs gen_regs frame (k.procs k.current_process)) y
              (head-ne k.current_process skipped y rest queue.2),
        )
        refl,
    IsQueue-turn (frozen_procs seg_regs gen_regs frame k) k.current_process skipped y rest (
      refl,
      Chain-kept seg_regs gen_regs frame k k.current_process (skipped ++ (y ∷ rest))
          k.current_process queue.1,
      queue.2,
      queue.3,
    ),
  )
