-- ===== src/State/Samples.antt =====
-- A kernel whose statics are clear, with the interrupt table where the heap's first block is.
use loof_os.Base.{[]}
use loof_os.State.{ProcessDesc, Kernel}

abbrev pub no_desc : ProcessDesc
no_desc = record {
  frame = record { eip = 0; cs = 0; eflags = 0; esp = 0; ss = 0 };
  gen_regs = record { edi = 0; esi = 0; ebp = 0; ebx = 0; edx = 0; ecx = 0; eax = 0; esp = 0 };
  seg_regs = record { ds = 0; es = 0; fs = 0; gs = 0 };
  esp0 = 0;
  page_directory = 0;
  prev = 0;
  next = 0;
  state = 0;
}

abbrev pub booted : Kernel
booted = record {
  mem = λ x. 0;
  procs = λ q. no_desc;
  current_process = 0;
  page_freelist = 0;
  idt = 0xd000_0000;
  tss_esp0 = 0;
  cr3 = 0;
  switching_enabled = 0;
  outputs = [];
}
