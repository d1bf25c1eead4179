-- ===== src/Devices/Examples.antt =====
-- The theorems on the timer at a kernel that has just started, and with two processes.
use loof_os.Base.{ℕ, ◌+◌, ◌==◌, if◌then◌else◌, arith}
use loof_os.State.{Kernel, ProcessDesc}
use loof_os.State.Samples.{booted, no_desc}
use loof_os.Devices.{init_pic, init_timer}
use loof_os.Devices.Timer.{Programs, init_pic-Programs, Ticks, init_timer-Ticks}

init_pic-Programs_example : Programs booted (init_pic booted)
init_pic-Programs_example = init_pic-Programs booted

init_timer-Ticks_example : Ticks 0xc012_3456 booted (init_timer 0xc012_3456 booted)
init_timer-Ticks_example = init_timer-Ticks 0xc012_3456 booted (omega arith) (omega arith)

-- Two processes, with switching on.
abbrev linked : ℕ → ProcessDesc
linked other = record no_desc { next = other; prev = other; esp0 = other + 4092 }

abbrev two : Kernel
two = record booted {
  procs = λ q. if q == 0xd000_0000 then linked 0xd000_0080 else linked 0xd000_0000;
  current_process = 0xd000_0000;
  switching_enabled = 1;
}
