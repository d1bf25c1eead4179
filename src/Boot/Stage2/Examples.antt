-- ===== src/Boot/Stage2/Examples.antt =====
-- Stage 2 on a screen that nothing was written to, with a volume that has no files.
use loof_os.Base.{ℕ, ◌<◌, ◌≡◌, refl, arith, List, ◌==◌, if◌then◌else◌}
use loof_os.Machine.Memory.{write_ne}
use loof_os.Machine.{Mem, write, word_at, Cmd, ok}
use loof_os.Boot.Bios.{BiosDap}
use loof_os.Boot.Bios.Read.{lba_of}
use loof_os.Boot.Exfat.{Volume, init_exfat}
use loof_os.Boot.Exfat.Init.{HasRoot, init_exfat-Initialised}
use loof_os.Boot.Stage2.{Loader, stage2}
use loof_os.Boot.Stage2.Missing.{Halts, missing_lines, stage2-Halts}

abbrev dark_memory : Mem
dark_memory a = 0

abbrev power_on : Loader
power_on = record {
  mem = dark_memory;
  color = 0x0f;
  index = 0;
  registers = λ r. 0;
  boot_record = dark_memory;
  upcase_table = λ c. 0;
  cr3 = 0;
}

-- The heap is 100 sectors after sector 0x100, and the root is cluster 4, with no entry.
abbrev bare_record : Mem
bare_record k = if k == 88 then 100 else (if k == 96 then 4 else 0)

abbrev bare_disk : ℕ → ℕ → ℕ
bare_disk lba k = if lba == 0x100 then bare_record k else 0

abbrev bare_int_13 : BiosDap → Mem → Mem
bare_int_13 dap buffer k = bare_disk (lba_of dap) k

bare-HasRoot : HasRoot bare_disk 1
unfolding word_at
bare-HasRoot = record {
  size = record { shift = omega arith; power = refl; small = omega arith };
  root = record { from = omega arith; to = omega arith; heap = omega arith; fat = omega arith };
  upcase = λ e lt mark. absurd (omega (arith, mark));
}

abbrev bare_init : Cmd Volume (Unit {0})
bare_init = init_exfat 512 bare_int_13 dark_memory

-- The record is the disk's.
abbrev HasRecord : Mem → (ℕ → ℕ) → Type 0
HasRecord r table = (k : ℕ) → k < 512 → r k ≡ bare_record k

bare_init-HasRecord :
    (v : Volume)
    → (v' : Volume) × (bare_init v ≡ ok tt v')
      × (v'.mem ≡ v.mem)
      × HasRecord v'.boot_record v'.upcase_table
bare_init-HasRecord v =
    let i =
      init_exfat-Initialised bare_int_13 dark_memory bare_disk (λ dap buffer k lt. refl) 1 v
        bare-HasRoot in
    (i.after, i.returns, i.memory, i.record_bytes)

-- A search that reads the root's first byte and finds no file.
abbrev no_file : List ℕ → ℕ → Cmd Volume ℕ
no_file path dest v = ok 0 (record v { mem = write v.mem dest 0 })

abbrev no_ranges : ℕ → ℕ → Cmd Mem ℕ
no_ranges buffer length h = ok 0 h

abbrev no_modes : Cmd Mem (Unit {0})
no_modes h = ok tt h

stage2-Halts_example :
    Halts (missing_lines 15) 0 (stage2 bare_init no_file no_ranges no_modes 0x9000 0xa000 power_on)
stage2-Halts_example =
    stage2-Halts bare_init no_file no_ranges no_modes 0x9000 0xa000 HasRecord bare_init-HasRecord
      (λ v ready. (
        record v { mem = write v.mem 0x10_0000 0 },
        refl,
        λ a lt. write_ne v.mem 0x10_0000 0 a (omega (arith, lt)),
      ))
      power_on (omega arith)
