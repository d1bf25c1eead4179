-- ===== src/State.antt =====
-- The kernel's state: memory by kernel virtual addresses, the static variables of the C files, and
-- what the assembly routines leave in the processor. Process descriptors are cells of their own, by
-- address; State/Descriptors has the bytes that they are in memory.
pub mod Loop
pub mod Samples
pub mod Descriptors
use loof_os.Base.{ℕ, zero, suc, ◌+◌, ◌≡◌, ap, List, [], ◌∷◌, ◌++◌, u8, u16}
use loof_os.Machine.{Mem, Run, ok, undefined, out_of_fuel, Cmd, pure, ◌>>◌, word_at, put_word}
use loof_os.Registers.{GenRegisterSet, SegRegisterSet, InterruptFrame}

-- kernel/proc/process.h: `process_desc`
pub record ProcessDesc : Type 0 where
  pub frame : InterruptFrame
  pub gen_regs : GenRegisterSet
  pub seg_regs : SegRegisterSet
  pub esp0 : ℕ
  pub page_directory : ℕ
  pub prev : ℕ
  pub next : ℕ
  pub state : ℕ

pub record Kernel : Type 0 where
  pub mem : Mem
  pub procs : ℕ → ProcessDesc
  pub current_process : ℕ
  pub page_freelist : ℕ
  pub idt : ℕ
  pub tss_esp0 : ℕ
  pub cr3 : ℕ
  pub switching_enabled : ℕ
  pub outputs : List (ℕ × ℕ)

-- port.s: `out dx, al`. The kernel's outputs are kept in order, as port and byte.
unfoldable pub outportb : ℕ → ℕ → Cmd Kernel (Unit {0})
outportb address v k = ok tt (record k { outputs = k.outputs ++ ((u16 address, u8 v) ∷ []) })

-- A command on the memory alone.
lift_run : {A : Type 0} → Kernel → Run Mem A → Run Kernel A
lift_run k (ok a h) = ok a (record k { mem = h })
lift_run k undefined = undefined
lift_run k out_of_fuel = out_of_fuel

unfoldable pub on_mem : {A : Type 0} → Cmd Mem A → Cmd Kernel A
unfolding lift_run
on_mem m k = lift_run k (m k.mem)

pub on_mem-ok :
    {A : Type 0} (m : Cmd Mem A) (k : Kernel) (a : A) (h : Mem)
    → m k.mem ≡ ok a h
    → on_mem m k ≡ ok a (record k { mem = h })
unfolding on_mem lift_run
on_mem-ok m k a h run = ap (lift_run k) run

-- `*(uint32_t*)a`, and the assignment to it.
unfoldable pub load : ℕ → Cmd Kernel ℕ
load a k = ok (word_at k.mem a) k

unfoldable pub store : ℕ → ℕ → Cmd Kernel (Unit {0})
store a v k = ok tt (record k { mem = put_word k.mem a v })

-- paging.s: the page directory that the processor walks.
unfoldable pub enable_paging : ℕ → Cmd Kernel (Unit {0})
enable_paging directory k = ok tt (record k { cr3 = directory })

-- `for (i = 0; i < n; i++) body`, at round `i` with `left` rounds to go.
unfoldable pub for_loop : ℕ → ℕ → (ℕ → Cmd Kernel (Unit {0})) → Cmd Kernel (Unit {0})
for_loop zero i body = pure tt
for_loop (suc left) i body = do body i; for_loop left (i + 1) body
