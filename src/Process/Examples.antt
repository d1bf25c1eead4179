-- ===== src/Process/Examples.antt =====
-- Runs of the process queue, and its theorems at concrete queues.
use mathlib.Core.List.{Mem, Nodup, Nodup-cons, Pairwise-singleton}
use loof_os.Base.{ℕ, ◌+◌, ◌≡◌, ◌≢◌, refl, [], ◌∷◌, arith, ◌==◌, if◌then◌else◌}
use loof_os.Machine.{write, put_word, word_at, Run, ok, undefined, out_of_fuel, bit32}
use loof_os.Registers.{GenRegisterSet, SegRegisterSet, InterruptFrame}
use loof_os.State.{ProcessDesc, Kernel, on_mem}
use loof_os.Alloc.{
  get_size, get_used, set_size, set_used, coalesce_loop, coalesce_block, round_loop,
  round_block_size, memory_free, kernel_free,
}
use loof_os.Process.{
  update, get_current, set_current, read_process, write_process, set_tss_stack, delete_process,
  walk, taken_back, on_descs, free_process, leave_process, note_stack, next_process, enter_current,
  switch_process, insert_process, init_processes, update_process,
}
use loof_os.Process.Ring.{Nodup-from, IsQueue}
use loof_os.Process.Insert.{Inserts, insert_process-Inserts}
use loof_os.Process.Freeze.{frozen_procs}
use loof_os.Process.Turn.{entering, switch_process-turns}
use loof_os.Process.Halt.{switch_process-hangs}
use loof_os.State.Descriptors.{put_words, put_desc, put_descs, desc_at, take_descs}

runs : Run Kernel ℕ → Run Kernel ℕ
unfolding write bit32 get_size get_used set_size set_used coalesce_loop coalesce_block round_loop
    round_block_size memory_free kernel_free on_mem get_current set_current read_process
    write_process set_tss_stack delete_process leave_process note_stack next_process enter_current
    switch_process insert_process init_processes update_process
runs r = r

abbrev gen : ℕ → GenRegisterSet
gen n = record { edi = n; esi = n; ebp = n; ebx = n; edx = n; ecx = n; eax = n; esp = n }

abbrev seg : ℕ → SegRegisterSet
seg n = record { ds = n; es = n; fs = n; gs = n }

abbrev user_frame : InterruptFrame
user_frame = record { eip = 0x400; cs = 0x1b; eflags = 0x200; esp = 0xbfff_fff0; ss = 0x23 }

abbrev kernel_frame : InterruptFrame
kernel_frame = record { eip = 0xc010_0000; cs = 8; eflags = 0x200; esp = 0; ss = 0 }

-- The first three descriptors of the kernel's heap.
abbrev first : ℕ
first = 0xd000_0000

abbrev second : ℕ
second = 0xd000_0080

abbrev third : ℕ
third = 0xd000_0100

abbrev desc : (state prev next page_directory : ℕ) → ProcessDesc
desc state prev next page_directory = record {
  frame = user_frame;
  gen_regs = gen page_directory;
  seg_regs = seg 0x23;
  esp0 = page_directory + 4092;
  page_directory = page_directory;
  prev = prev;
  next = next;
  state = state;
}

-- The state of the first process and of the second, which stand in a ring with the third.
abbrev ring : ℕ → ℕ → Kernel
ring s t = record {
  mem = λ x. if x == 0xbfff_fff0 then 3 else (if x == first then 3 else 7);
  procs = λ q.
      if q == first
      then desc s third second 0xd010_0000
      else (if q == second
          then desc t first third 0xd020_0000
          else (if q == third then desc 0 second first 0xd030_0000 else desc 0 0 0 0));
  current_process = first;
  page_freelist = 0;
  idt = 0;
  tss_esp0 = 0;
  cr3 = 0;
  switching_enabled = 0;
  outputs = [];
}

distinct : Nodup (first ∷ second ∷ third ∷ [])
distinct =
    Nodup-from first (second ∷ third ∷ []) (omega arith, (omega arith, tt))
      (Nodup-from second (third ∷ []) (omega arith, tt)
        (Pairwise-singleton (λ (x y : ℕ). x ≢ y) third))

ring-IsQueue :
    (s t : ℕ) → IsQueue (ring s t).procs (ring s t).current_process (first ∷ second ∷ third ∷ [])
ring-IsQueue s t = (
  refl,
  (refl, refl, (refl, refl, (refl, refl))),
  distinct,
  (omega arith, (omega arith, (omega arith, tt))),
)

-- Three insertions into the empty queue make the ring.
abbrev kernel_of : {A : Type 0} → Run Kernel A → Kernel
kernel_of (ok _ k) = k
kernel_of undefined = ring 0 0
kernel_of out_of_fuel = ring 0 0

abbrev none_yet : Kernel
none_yet = record (kernel_of (init_processes (ring 0 0))) { procs = λ q. desc 0 0 0 q }

abbrev three : Kernel
three = kernel_of (
    insert_process third
      (kernel_of (insert_process second (kernel_of (insert_process first none_yet)))))

three_links :
    ((three.procs first).next ≡ second)
    × ((three.procs second).next ≡ third)
    × ((three.procs third).next ≡ first)
    × ((three.procs first).prev ≡ third)
    × (three.current_process ≡ first)
unfolding runs
three_links = (refl, refl, refl, refl, refl)

insert_process-Inserts_example :
    Inserts
      (ring 0 0)
      (first ∷ second ∷ third ∷ [])
      0xd000_0180
      (insert_process 0xd000_0180 (ring 0 0))
insert_process-Inserts_example =
    insert_process-Inserts (ring 0 0) (first ∷ second ∷ third ∷ []) 0xd000_0180 (ring-IsQueue 0 0)
      (omega arith) fresh
  where
    fresh : ¬ Mem 0xd000_0180 (first ∷ second ∷ third ∷ [])
    fresh =
        (Nodup-cons.0 (
          Nodup-from 0xd000_0180 (first ∷ second ∷ third ∷ [])
            (omega arith, (omega arith, (omega arith, tt))) distinct)).0

-- The halted second process is skipped.
switch_process-turns_example :
    (switch_process 2 (seg 0x23) (gen 5) user_frame (ring 0 1)
      ≡ ok (entering ((ring 0 1).procs third)) (record (ring 0 1) {
        procs = frozen_procs (seg 0x23) (gen 5) user_frame (ring 0 1);
        current_process = third;
        tss_esp0 = ((ring 0 1).procs third).esp0;
      }))
    × IsQueue
        (frozen_procs (seg 0x23) (gen 5) user_frame (ring 0 1))
        third
        (third ∷ first ∷ second ∷ [])
switch_process-turns_example =
    switch_process-turns (seg 0x23) (gen 5) user_frame 2 (ring 0 1) (second ∷ []) third []
      (ring-IsQueue 0 1) refl (refl, tt) (λ e. omega (arith, e)) (omega arith)

-- A process in the kernel's ring resumes on the stack where it was interrupted.
kernel_stack : ((frozen_procs (seg 0x10) (gen 5) kernel_frame (ring 0 1)) first).frame.esp ≡ 5
kernel_stack = refl

abbrev stuck : Kernel
stuck = record (ring 1 1) {
  procs = update (ring 1 1).procs third (desc 1 second first 0xd030_0000);
}

switch_process-hangs_example : switch_process 1000 (seg 0x23) (gen 5) user_frame stuck ≡ out_of_fuel
switch_process-hangs_example =
    switch_process-hangs (seg 0x23) (gen 5) user_frame stuck 1000 second (third ∷ [])
      (
        refl,
        (refl, refl, (refl, refl, (refl, refl))),
        distinct,
        (omega arith, (omega arith, (omega arith, tt))),
      )
      (refl, (refl, (refl, tt)))

-- Two processes at instructions whose addresses end in the byte 7: freeing the second one takes their
-- descriptors for free blocks of 128 bytes, and merging them makes the first process's saved `eip`
-- one larger.
abbrev merging : Kernel
merging = record (ring 0 2) {
  procs = λ q. record ((ring 0 2).procs q) { frame = record user_frame { eip = 0x407 } };
  current_process = second;
}

neighbour_eip : ((kernel_of (free_process 3 second merging)).procs first).frame.eip ≡ 0x408
unfolding write put_word word_at put_words put_desc put_descs desc_at take_descs bit32 get_size
    get_used set_size set_used coalesce_loop coalesce_block memory_free kernel_free walk taken_back
    on_descs free_process
neighbour_eip = refl
