-- ===== src/Gdt/Examples.antt =====
-- The theorem on `init_gdt` at a kernel that has just started.
use loof_os.Base.{arith, inr}
use loof_os.State.Samples.{booted}
use loof_os.Gdt.{init_gdt}
use loof_os.Gdt.Load.{Loads, init_gdt-Loads}

init_gdt-Loads_example :
    Loads 0xc010_0000 0xc010_1000 booted (init_gdt 0xc010_0000 0xc010_1000 booted)
init_gdt-Loads_example =
    init_gdt-Loads 0xc010_0000 0xc010_1000 booted (omega arith) (omega arith) (inr (omega arith))
