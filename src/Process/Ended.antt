-- ===== src/Process/Ended.antt =====
-- `switch_process` at an interrupted process that has ended: it is freed and taken out of the ring.
use loof_os.Base.{ℕ, ◌≡◌, ◌≢◌, List}
use loof_os.Machine.{Mem, Run, ok, undefined, out_of_fuel}
use loof_os.Registers.{GenRegisterSet, SegRegisterSet, InterruptFrame}
use loof_os.State.{Kernel}
use loof_os.Process.{update, Switch}
use loof_os.Process.Ring.{Procs, IsQueue}
use loof_os.Process.Links.{context}
use loof_os.Process.Freeze.{noted}
use loof_os.Process.Turn.{entering}
use loof_os.Process.Unlink.{unlinked}

-- What the switch away from the ended process leaves: its memory is `h`, it is out of the ring,
-- and no other descriptor changes but in its links.
pub record Departed (k : Kernel) (h : Mem) (y : ℕ) (queue : List ℕ) (sw : Switch) (k' : Kernel)
    : Type 0 where
  enters_next : sw ≡ entering (k.procs y)
  ring : IsQueue k'.procs k'.current_process queue
  contexts : (q : ℕ) → q ≢ k.current_process → context (k'.procs q) ≡ context (k.procs q)
  same :
      k' ≡ record k { mem = h; procs = k'.procs; current_process = y; tss_esp0 = (k.procs y).esp0 }

abbrev pub Departs : Kernel → Mem → ℕ → List ℕ → Run Kernel Switch → Type 0
Departs k h y queue (ok sw k') = Departed k h y queue sw k'
Departs k h y queue undefined = ⊥
Departs k h y queue out_of_fuel = ⊥

module _ (seg_regs : SegRegisterSet) (gen_regs : GenRegisterSet) (frame : InterruptFrame)
    (k : Kernel) where
  abbrev left_procs : Procs
  left_procs =
      let g = unlinked k.procs k.current_process in
      update g k.current_process (noted frame (g k.current_process))
