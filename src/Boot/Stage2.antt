-- ===== src/Boot/Stage2.antt =====
-- boot/x86/stage2.c: the boot loader from the first text on the screen to the jump into the kernel.
-- The file system, the memory scan and the choice of a graphics mode are arguments.
pub mod Messages
pub mod Missing
mod Examples
use Prim.Native.Char.{code}
use Prim.Native.String.{String, [] as empty, ◌∷◌ as ◌<:◌}
use loof_os.Base.{ℕ, zero, suc, ◌+◌, ◌*◌, ◌^◌, List, [], ◌∷◌, ◌==◌, if◌then◌else◌, add32}
use loof_os.Machine.{Mem, word_at, Cmd, Run, ok, undefined, out_of_fuel, pure, ◌>>=◌, ◌>>◌}
use loof_os.Boot.Print.{print}
use loof_os.Boot.Vga.{Screen, reset_display, set_cursor_pos, set_color, vga_output_char}
use loof_os.Boot.Exfat.{Volume}
use loof_os.Boot.Directory.{map_memory}

-- The characters of a text.
abbrev pub chars : String → List ℕ
chars empty = []
chars (c <: text) = code c ∷ chars text

-- The screen, the volume, one memory for both, and cr3.
pub record Loader : Type 0 where
  pub mem : Mem
  pub color : ℕ
  pub index : ℕ
  pub registers : ℕ → ℕ
  pub boot_record : Mem
  pub upcase_table : ℕ → ℕ
  pub cr3 : ℕ

abbrev pub screen_of : Loader → Screen
screen_of l = record { mem = l.mem; color = l.color; index = l.index; registers = l.registers }

abbrev pub volume_of : Loader → Volume
volume_of l = record { mem = l.mem; boot_record = l.boot_record; upcase_table = l.upcase_table }

module _ {A : Type 0} where
  abbrev pub from_screen : Loader → Run Screen A → Run Loader A
  from_screen l (ok a s) =
      ok a (record l { mem = s.mem; color = s.color; index = s.index; registers = s.registers })
  from_screen l undefined = undefined
  from_screen l out_of_fuel = out_of_fuel

  abbrev pub from_volume : Loader → Run Volume A → Run Loader A
  from_volume l (ok a v) =
      ok a (record l { mem = v.mem; boot_record = v.boot_record; upcase_table = v.upcase_table })
  from_volume l undefined = undefined
  from_volume l out_of_fuel = out_of_fuel

  abbrev pub from_memory : Loader → Run Mem A → Run Loader A
  from_memory l (ok a h) = ok a (record l { mem = h })
  from_memory l undefined = undefined
  from_memory l out_of_fuel = out_of_fuel

  abbrev pub on_screen : Cmd Screen A → Cmd Loader A
  on_screen m l = from_screen l (m (screen_of l))

  abbrev pub on_volume : Cmd Volume A → Cmd Loader A
  on_volume m l = from_volume l (m (volume_of l))

  abbrev pub on_memory : Cmd Mem A → Cmd Loader A
  on_memory m l = from_memory l (m l.mem)

-- The loop that does nothing, and the jump into the kernel.
pub data Ends : Type 0 where
  no_kernel : Ends
  kernel_jump : Ends

unfoldable pub load_char : ℕ → Cmd Screen ℕ
load_char a s = ok (s.mem a) s

abbrev pub say : String → List ℕ → Cmd Loader (Unit {0})
say text args = on_screen (print vga_output_char load_char (chars text) args)

unfoldable pub enable_paging : ℕ → Cmd Loader (Unit {0})
enable_paging dir l = ok tt (record l { cr3 = dir })

unfoldable pub load_word : ℕ → Cmd Loader ℕ
load_word a l = ok (word_at l.mem a) l

-- `for (int i = 0; i < mem_blocks_len; i++)`
unfoldable pub table_loop : (left i mem_blocks : ℕ) → Cmd Loader (Unit {0})
table_loop zero i mem_blocks = pure tt
table_loop (suc left) i mem_blocks = do
  let block = mem_blocks + 24 * i
  base_low ← load_word block
  base_high ← load_word (block + 4)
  size_low ← load_word (block + 8)
  size_high ← load_word (block + 12)
  type ← load_word (block + 16)
  say "%x%x | %x%x | %x\r\n" (base_high ∷ base_low ∷ size_high ∷ size_low ∷ type ∷ [])
  table_loop left (i + 1) mem_blocks

unfoldable pub start_screen : Cmd Loader (Unit {0})
start_screen = do
  on_screen reset_display
  on_screen (set_cursor_pos 0 0)
  on_screen (set_color 0 0xf)
  say "Starting stage2 boot...\r\n" []

module _ (init_exfat : Cmd Volume (Unit {0})) (read_file_exfat : List ℕ → (dest : ℕ) → Cmd Volume ℕ)
    (bios_mem_scan : (buffer length : ℕ) → Cmd Mem ℕ) (init_vbe : Cmd Mem (Unit {0}))
    (kernel_memory mem_blocks : ℕ) where
  -- Once the kernel is in memory.
  unfoldable pub enter_kernel : (kernel_size : ℕ) → Cmd Loader Ends
  enter_kernel kernel_size = do
    say "Loading system processes...\r\n" []
    say "Loading VGA driver\r\n" []
    say "Kernel Size: %x\r\n" (kernel_size ∷ [])
    let behind = add32 0x10_0000 kernel_size
    vga_size ← on_volume (read_file_exfat (chars "/system/vga") behind)
    if vga_size == 0
        then say "System process does not exist\r\n" []
        else say "System process detected at %x. Passing info\r\n" (behind ∷ [])
    mem_blocks_len ← on_memory (bios_mem_scan mem_blocks 64)
    say "\nMemory Table:\r\n" []
    say "Base             | Size             | Type\r\n" []
    table_loop mem_blocks_len 0 mem_blocks
    on_memory (map_memory kernel_memory)
    enable_paging kernel_memory
    on_memory init_vbe
    pure kernel_jump

  -- From the load of the kernel on; without one, a loop that does nothing.
  unfoldable pub load_kernel : Cmd Loader Ends
  load_kernel = do
    say "Loading kernel...\r\n" []
    kernel_size ← on_volume (read_file_exfat (chars "/system/kernel") 0x10_0000)
    if kernel_size == 0
        then (do say "No kernel detected at /system/kernel\r\n" []; pure no_kernel)
        else enter_kernel kernel_size

  unfoldable pub stage2 : Cmd Loader Ends
  stage2 = do
    start_screen
    say "Initializing the exFAT filesystem...\r\n" []
    on_volume init_exfat
    load_kernel
