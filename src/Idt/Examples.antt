-- ===== src/Idt/Examples.antt =====
-- The theorem on `set_id` at the page fault's gate.
use loof_os.Base.{arith}
use loof_os.State.Samples.{booted}
use loof_os.Idt.{set_id}
use loof_os.Idt.Gate.{Installs, set_id-Installs}

set_id-Installs_example :
    Installs 0xd000_0070
      (record { handler = 0xc012_3456; selector = 8; type = 14; s = 0; dpl = 0; present = 1 })
      booted
      (set_id 14 0xc012_3456 8 14 0 1 booted)
set_id-Installs_example =
    set_id-Installs 14 0xc012_3456 8 14 0 1 booted (omega arith) (omega arith) (omega arith)
      (omega arith) (omega arith) (omega arith) (omega arith)
