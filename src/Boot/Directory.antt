-- ===== src/Boot/Directory.antt =====
-- boot/x86/stage2.c: the page directory that the kernel starts with. boot/x86/paging.h declares the
-- entry as arch/x86/mm/paging.h does.
pub mod Translate
mod Examples
use loof_os.Base.{ℕ, zero, suc, ◌+◌, ◌*◌, ◌^◌, u32}
use loof_os.Machine.{Mem, put_word, Cmd, Run, ok, pure, ◌>>=◌, ◌>>◌}
use loof_os.PageEntries.{Pde4Mib, encode_pde_4mib, no_pde_4mib}

abbrev pub kernel_entry : ℕ → Pde4Mib
kernel_entry i = record no_pde_4mib { present = 1; rw' = 1; ps = 1; lowaddr = i }

-- `kernel_memory[n] = e`
unfoldable pub put_entry : (kernel_memory n : ℕ) → Pde4Mib → Cmd Mem (Unit {0})
put_entry kernel_memory n e h = ok tt (put_word h (u32 (kernel_memory + 4 * n)) (encode_pde_4mib e))

-- `for (int i = 0; i < ...; i++)`, from entry `first` on.
unfoldable pub map_loop : (left i first kernel_memory : ℕ) → Cmd Mem (Unit {0})
map_loop zero i first kernel_memory = pure tt
map_loop (suc left) i first kernel_memory = do
  put_entry kernel_memory (i + first) (kernel_entry i)
  map_loop left (i + 1) first kernel_memory

unfoldable pub map_memory : (kernel_memory : ℕ) → Cmd Mem (Unit {0})
map_memory kernel_memory = do map_loop 768 0 0 kernel_memory; map_loop 256 0 768 kernel_memory
