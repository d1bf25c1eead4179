-- ===== src/Process/Freeze.antt =====
-- What `switch_process` saves of the process that it interrupts.
use loof_os.Base.{
  ℕ, ◌%◌, ◌≡◌, refl, ap, List, if◌then◌else◌, ◌==◌, ==_of_eq, u8, arith, Bool-cases, inl, inr,
}
use loof_os.Machine.{ok, Cmd, ◌>>◌}
use loof_os.Registers.{GenRegisterSet, SegRegisterSet, InterruptFrame}
use loof_os.State.{ProcessDesc, Kernel}
use loof_os.Process.{update, get_current, read_process, write_process, leave_process, note_stack}
use loof_os.Process.Ring.{Procs, update_self, update-update, Chain, Chain-same}
use loof_os.Process.Links.{field-update}

-- What `switch_process` leaves in the descriptor of a running process that it interrupts: all
-- registers, and the stack to go back to, which the processor does not push for the kernel's ring.
abbrev pub frozen : SegRegisterSet → GenRegisterSet → InterruptFrame → ProcessDesc → ProcessDesc
frozen seg_regs gen_regs frame d =
    if frame.cs % 4 == 0
    then record d {
      frame = record frame { ss = 0x10; esp = gen_regs.esp };
      seg_regs = seg_regs;
      gen_regs = gen_regs;
    }
    else record d { frame = frame; seg_regs = seg_regs; gen_regs = record gen_regs { esp = 0 } }

-- `note_stack` as a change of the descriptor.
abbrev pub noted : InterruptFrame → ProcessDesc → ProcessDesc
noted frame d =
    if frame.cs % 4 == 0
    then record d { frame = record (d.frame) { ss = 0x10; esp = d.gen_regs.esp } }
    else record d { gen_regs = record (d.gen_regs) { esp = 0 } }

pub note_stack-noted :
    (frame : InterruptFrame) (k : Kernel)
    → note_stack frame k
      ≡ ok tt (record k {
        procs = update k.procs k.current_process (noted frame (k.procs k.current_process));
      })
unfolding note_stack get_current read_process write_process
note_stack-noted frame k = rw (ring) (elim (Bool-cases (frame.cs % 4 == 0)) [
  | inl kernel ↦ rw kernel refl
  | inr user ↦ rw user refl
])
  where
    ring : u8 (frame.cs % 4) ≡ frame.cs % 4
    ring = omega arith

pub noted_field {ℓ} :
    {A : Type ℓ} (φ : ProcessDesc → A) (frame : InterruptFrame)
    → ((d : ProcessDesc) (fr : InterruptFrame) (gr : GenRegisterSet)
        → φ (record d { frame = fr; gen_regs = gr }) ≡ φ d)
    → (d : ProcessDesc) → φ (noted frame d) ≡ φ d
noted_field φ frame keeps d = elim (Bool-cases (frame.cs % 4 == 0)) [
  | inl kernel ↦
      rw kernel (keeps d (record (d.frame) { ss = 0x10; esp = d.gen_regs.esp }) d.gen_regs)
  | inr user ↦ rw user (keeps d d.frame (record (d.gen_regs) { esp = 0 }))
]

module _ (seg_regs : SegRegisterSet) (gen_regs : GenRegisterSet) (frame : InterruptFrame) where
  abbrev pub freeze : ProcessDesc → ProcessDesc
  freeze = frozen seg_regs gen_regs frame

  abbrev saved : ProcessDesc → ProcessDesc
  saved d = record d { frame = frame; seg_regs = seg_regs; gen_regs = gen_regs }

  leave_process-saved :
      (rounds : ℕ) (k : Kernel)
      → (k.procs k.current_process).state ≡ 0
      → leave_process rounds k.current_process seg_regs gen_regs frame k
        ≡ ok tt (record k {
          procs = update k.procs k.current_process (saved (k.procs k.current_process));
        })
  unfolding leave_process read_process write_process
  leave_process-saved rounds k running =
      rw (==_of_eq {a = (k.procs k.current_process).state} {b = 0} running) refl

  pub freezes :
      {B : Type 0} (rounds : ℕ) (k : Kernel) (m : Cmd Kernel B)
      → (k.procs k.current_process).state ≡ 0
      → (leave_process rounds k.current_process seg_regs gen_regs frame >> (note_stack frame >> m))
          k
        ≡ m (record k {
          procs = update k.procs k.current_process (freeze (k.procs k.current_process));
        })
  freezes rounds k m running =
      rw
        (
          leave_process-saved rounds k running,
          note_stack-noted frame (record k {
            procs = update k.procs k.current_process (saved (k.procs k.current_process));
          }),
          update_self k.procs k.current_process (saved (k.procs k.current_process)),
        )
        (ap (λ (f : Procs). m (record k { procs = f }))
          (update-update k.procs k.current_process (saved (k.procs k.current_process))
            (freeze (k.procs k.current_process))))

  -- The registers and links that freezing keeps.
  freeze_field {ℓ} :
      {A : Type ℓ} (φ : ProcessDesc → A)
      → ((d : ProcessDesc) (fr : InterruptFrame) (gr : GenRegisterSet)
          → φ (record d { frame = fr; seg_regs = seg_regs; gen_regs = gr }) ≡ φ d)
      → (d : ProcessDesc) → φ (freeze d) ≡ φ d
  freeze_field φ keeps d = elim (Bool-cases (frame.cs % 4 == 0)) [
    | inl kernel ↦ rw kernel (keeps d (record frame { ss = 0x10; esp = gen_regs.esp }) gen_regs)
    | inr user ↦ rw user (keeps d frame (record gen_regs { esp = 0 }))
  ]

  module _ (k : Kernel) where
    abbrev pub frozen_procs : Procs
    frozen_procs = update k.procs k.current_process (freeze (k.procs k.current_process))

    kept {ℓ} :
        {A : Type ℓ} (φ : ProcessDesc → A)
        → ((d : ProcessDesc) (fr : InterruptFrame) (gr : GenRegisterSet)
            → φ (record d { frame = fr; seg_regs = seg_regs; gen_regs = gr }) ≡ φ d)
        → (q : ℕ) → φ (frozen_procs q) ≡ φ (k.procs q)
    kept φ keeps =
        field-update φ k.procs k.current_process (freeze (k.procs k.current_process))
          (freeze_field φ keeps (k.procs k.current_process))

    pub Chain-kept :
        (a : ℕ) (xs : List ℕ) (b : ℕ) → Chain k.procs a xs b → Chain frozen_procs a xs b
    Chain-kept a xs b =
        Chain-same k.procs frozen_procs a xs b
          (λ q. (kept (λ d. d.next) (λ d fr gr. refl) q, kept (λ d. d.prev) (λ d fr gr. refl) q))

    pub state-kept : (q : ℕ) → (frozen_procs q).state ≡ (k.procs q).state
    state-kept = kept (λ d. d.state) (λ d fr gr. refl)
