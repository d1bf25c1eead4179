-- ===== src/Process.antt =====
-- kernel/proc/process.c and process.h: the ring of process descriptors and the round-robin switch.
mod Examples
pub mod Ring
pub mod Links
pub mod Insert
pub mod Freeze
pub mod Turn
pub mod Halt
pub mod Unlink
pub mod Freed
pub mod Ended
use mathlib.Core.Option
use loof_os.Base.{
  ℕ, zero, suc, ◌+◌, ◌-◌, ◌*◌, ◌%◌, ◌^◌, Bool, ◌||◌, ◌==◌, if◌then◌else◌, add32, sub32, u8, List,
  [], ◌∷◌, Option, none, some,
}
use loof_os.Machine.{Mem, Run, Cmd, ok, undefined, out_of_fuel, pure, ◌>>=◌, ◌>>◌, write}
use loof_os.Registers.{GenRegisterSet, SegRegisterSet, InterruptFrame}
use loof_os.State.Descriptors.{put_descs, take_descs}
use loof_os.State.{ProcessDesc, Kernel, on_mem, load, store, enable_paging, for_loop}
use loof_os.Alloc.{kernel_base, kernel_allocate, kernel_free}
use loof_os.Paging.{page_size_4k, allocate_page}

abbrev pub ring_kernel : ℕ
ring_kernel = 0

abbrev pub process_running : ℕ
process_running = 0

abbrev pub process_halted : ℕ
process_halted = 1

-- sizeof(process_desc), which is packed.
abbrev pub process_desc_bytes : ℕ
process_desc_bytes = 85

unfoldable pub get_current : Cmd Kernel ℕ
get_current k = ok k.current_process k

unfoldable pub set_current : ℕ → Cmd Kernel (Unit {0})
set_current p k = ok tt (record k { current_process = p })

unfoldable pub read_process : ℕ → Cmd Kernel ProcessDesc
read_process p k = ok (k.procs p) k

abbrev pub update : (ℕ → ProcessDesc) → ℕ → ProcessDesc → ℕ → ProcessDesc
update f p d q = if q == p then d else f q

unfoldable pub write_process : ℕ → ProcessDesc → Cmd Kernel (Unit {0})
write_process p d k = ok tt (record k { procs = update k.procs p d })

-- gdt.c: `set_tss_stack`
unfoldable pub set_tss_stack : ℕ → Cmd Kernel (Unit {0})
set_tss_stack esp0 k = ok tt (record k { tss_esp0 = esp0 })

-- How a switch ends: the interrupted code goes on, or `switch_context` loads these registers and
-- this page directory and never returns.
pub data Switch : Type 0 where
  stays : Switch
  enters : SegRegisterSet → GenRegisterSet → InterruptFrame → ℕ → Switch

unfoldable pub init_processes : Cmd Kernel (Unit {0})
init_processes = set_current 0

-- The end of `switch_process`, and the whole of `force_enter_userland`.
unfoldable pub enter_current : Cmd Kernel Switch
enter_current = do
  c ← get_current
  d ← read_process c
  set_tss_stack d.esp0
  pure (enters d.seg_regs d.gen_regs d.frame (sub32 d.page_directory kernel_base))

unfoldable pub force_enter_userland : Cmd Kernel Switch
force_enter_userland = enter_current

-- The addresses from `p` along `next` to the one before `stop`.
unfoldable pub walk : (rounds : ℕ) → (ℕ → ProcessDesc) → (stop p : ℕ) → Option (List ℕ)
walk zero f stop p = none
walk (suc rounds) f stop p =
    let rest = walk rounds f stop (f p).next in
    if p == stop then some [] else Option.map (λ ps. p ∷ ps) rest

-- A command on the memory with the descriptors at these addresses among its bytes.
unfoldable pub taken_back : List ℕ → Kernel → Run Mem (Unit {0}) → Run Kernel (Unit {0})
taken_back ps k (ok _ h) = ok tt (record k { mem = h; procs = take_descs ps h k.procs })
taken_back ps k undefined = undefined
taken_back ps k out_of_fuel = out_of_fuel

unfoldable pub on_descs : Option (List ℕ) → Cmd Mem (Unit {0}) → Cmd Kernel (Unit {0})
on_descs none m k = out_of_fuel
on_descs (some ps) m k = taken_back ps k (m (put_descs ps k.procs k.mem))

-- The two calls read their arguments' bytes as headers: the second one, and the first one too where
-- the stack pointer leads there, those of descriptors of the ring.
unfoldable pub free_process : (rounds c : ℕ) → Cmd Kernel (Unit {0})
free_process rounds c k =
    on_descs (Option.map (λ ps. c ∷ ps) (walk rounds k.procs c (k.procs c).next))
      (kernel_free (k.procs c).frame.esp >> kernel_free c) k

-- Frees an ended process and takes it out of the ring; `current_process` still points at it.
unfoldable pub delete_process : (rounds c : ℕ) → Cmd Kernel (Unit {0})
delete_process rounds c = do
  free_process rounds c
  d ← read_process c
  if c == d.next then set_current 0 else (do
    before ← read_process d.prev
    write_process d.prev (record before { next = d.next })
    c' ← read_process c
    after ← read_process c'.next
    write_process c'.next (record after { prev = c'.prev }))

-- The branch on the state of the interrupted process.
unfoldable pub leave_process :
    (rounds c : ℕ) → SegRegisterSet → GenRegisterSet → InterruptFrame → Cmd Kernel (Unit {0})
leave_process rounds c seg_regs gen_regs frame = do
  d ← read_process c
  if d.state == process_running
      then write_process c (record d { frame = frame; seg_regs = seg_regs; gen_regs = gen_regs })
      else (if d.state == 2 then delete_process rounds c else pure tt)

-- How the stack is restored later depends on the ring that was interrupted.
unfoldable pub note_stack : InterruptFrame → Cmd Kernel (Unit {0})
note_stack frame = do
  c ← get_current
  d ← read_process c
  if u8 (frame.cs % 4) == ring_kernel
      then write_process c
          (record d { frame = record (d.frame) { ss = 0x10; esp = d.gen_regs.esp } })
      else write_process c (record d { gen_regs = record (d.gen_regs) { esp = 0 } })

-- `do current_process = current_process->next; while (... == PROCESS_HALTED);` The ring bounds the
-- rounds if a process that is not halted is on it; else the loop does not end.
unfoldable pub next_process : ℕ → Cmd Kernel (Unit {0})
next_process zero = λ _. out_of_fuel
next_process (suc rounds) = do
  c ← get_current
  d ← read_process c
  set_current d.next
  n ← read_process d.next
  if n.state == process_halted then next_process rounds else pure tt

unfoldable pub switch_process :
    ℕ → SegRegisterSet → GenRegisterSet → InterruptFrame → Cmd Kernel Switch
switch_process rounds seg_regs gen_regs frame = do
  c ← get_current
  d ← read_process c
  if (c == 0) || (d.next == c) then pure stays else (do
    leave_process rounds c seg_regs gen_regs frame
    note_stack frame
    next_process rounds
    enter_current)

-- The registers of a process that has not run, and where its stacks and pages are.
unfoldable pub new_desc : (eip stack page_directory : ℕ) → ProcessDesc → ProcessDesc
new_desc eip stack page_directory old = record {
  frame = record { eip = eip; cs = 0x1b; eflags = 2 ^ 9; esp = kernel_base - 4; ss = 0x23 };
  gen_regs = record {
    edi = 0;
    esi = 0;
    ebp = kernel_base - 4;
    ebx = 0;
    edx = 0;
    ecx = 0;
    eax = 0;
    esp = 0;
  };
  seg_regs = record { ds = 0x23; es = 0x23; fs = 0x23; gs = 0x23 };
  esp0 = add32 stack 4092;
  page_directory = page_directory;
  prev = old.prev;
  next = old.next;
  state = 0;
}

-- The last process in the queue is the one before the current.
unfoldable pub insert_process : ℕ → Cmd Kernel (Unit {0})
insert_process p = do
  c ← get_current
  d ← read_process p
  if c == 0 then (do set_current p; write_process p (record d { next = p; prev = p })) else (do
    cur ← read_process c
    write_process p (record d { next = c; prev = cur.prev })
    cur ← read_process c
    last ← read_process cur.prev
    write_process cur.prev (record last { next = p })
    cur ← read_process c
    write_process c (record cur { prev = p }))

unfoldable pub update_process : ℕ → Cmd Kernel (Unit {0})
update_process state = do
  c ← get_current
  d ← read_process c
  write_process c (record d { state = u8 state })

-- `translate` is the processor's: where the byte at a virtual address is, under a page directory.
-- `kernel_memory` is the address of the kernel's page directory.
module _ (translate : Mem → ℕ → ℕ → ℕ) (kernel_memory : ℕ) where
  unfoldable pub store_byte : ℕ → ℕ → Cmd Kernel (Unit {0})
  store_byte a v k = ok tt (record k { mem = write k.mem (translate k.mem k.cr3 a) v })

  -- `jmp` to itself, at the start of the process's first page.
  unfoldable pub write_program : Cmd Kernel (Unit {0})
  write_program = do
    store_byte 0 0xe9
    store_byte 1 0xfb
    store_byte 2 0xff
    store_byte 3 0xff
    store_byte 4 0xff

  unfoldable pub copy_entry : ℕ → ℕ → Cmd Kernel (Unit {0})
  copy_entry page_directory i = do
    entry ← load (add32 kernel_memory (4 * (i + 768)))
    store (add32 page_directory (4 * (i + 768))) entry

  -- `create_process` up to the insertion: the address of the new descriptor.
  unfoldable pub build_process : ℕ → Cmd Kernel ℕ
  build_process eip = do
    p ← on_mem (kernel_allocate process_desc_bytes)
    stack ← on_mem (kernel_allocate 4096)
    page_directory ← on_mem (kernel_allocate (4 * 1024))
    old ← read_process p
    write_process p (new_desc eip stack page_directory old)
    for_loop 256 0 (copy_entry page_directory)
    allocate_page page_directory (kernel_base - page_size_4k)
    allocate_page page_directory 0
    enable_paging (sub32 page_directory kernel_base)
    write_program
    enable_paging (sub32 kernel_memory kernel_base)
    pure p

  unfoldable pub create_process : ℕ → Cmd Kernel (Unit {0})
  create_process eip = do p ← build_process eip; insert_process p
