-- ===== src/Boot/Exfat/Examples.antt =====
-- A small volume: one sector for a cluster, and a file of two clusters, 3 and 5.
use loof_os.Base.{
  ℕ, ◌+◌, ◌*◌, ◌%◌, ◌<◌, ◌≡◌, refl, sym, subst, arith, List, [], ◌∷◌, inl, inr, ◌==◌, if◌then◌else◌,
  leb, ltb, ◌&&◌, Option,
}
use loof_os.Machine.{Mem, word_at}
use loof_os.Boot.Bios.{BiosDap}
use loof_os.Boot.Bios.Read.{lba_of}
use loof_os.Boot.Exfat.{Volume, entry_type, first_cluster, init_exfat}
use loof_os.Boot.Exfat.File.{load_file, read_file_exfat_helper, read_file_exfat}
use loof_os.Boot.Exfat.Names.{raw_char}
use loof_os.Boot.Exfat.Find.{entry_at, IsEntry, IsFirst}
use loof_os.Boot.Exfat.Search.{load_found, read_file_exfat_helper-load_found}
use loof_os.Boot.Exfat.Walk.{follow, read_file_exfat-follow}
use loof_os.Boot.Exfat.Init.{HasRoot, Initialised, init_exfat-Initialised}
use loof_os.Boot.Exfat.Sectors.{InReach, HasSize}
use loof_os.Boot.Exfat.Chain.{IsFound}
use loof_os.Boot.Exfat.Load.{IsLoaded, load_file-IsLoaded}

abbrev fat : Mem
fat k = if k == 12 then 5 else (if leb 20 k && ltb k 24 then 0xff else 0)

abbrev small_disk : ℕ → ℕ → ℕ
small_disk lba k = if lba == 0x100 then fat k else (lba + k) % 256

abbrev small_int_13 : BiosDap → Mem → Mem
small_int_13 dap buffer k = small_disk (lba_of dap) k

-- The heap is 100 sectors after the table.
abbrev small_record : Mem
small_record a = if a == 88 then 100 else 0

-- The stream extension is at 0x1000: the first cluster is 3, the length 700.
abbrev small_mem : Mem
small_mem a =
    if a == 0x1014 then 3 else (if a == 0x1018 then 0xbc else (if a == 0x1019 then 2 else 0))

abbrev small_volume : Volume
small_volume = record { mem = small_mem; boot_record = small_record; upcase_table = λ c. c }

abbrev nothing : Mem
nothing a = 0

small-HasSize : HasSize small_record 1
small-HasSize = record { shift = omega arith; power = refl; small = omega arith }

third-IsFound : IsFound small_record 1 3
unfolding word_at
third-IsFound = record {
  reach = record { from = omega arith; to = omega arith; heap = omega arith; fat = omega arith };
  first = refl;
}

fifth-IsFound : IsFound small_record 1 5
unfolding word_at
fifth-IsFound = record {
  reach = record { from = omega arith; to = omega arith; heap = omega arith; fat = omega arith };
  first = refl;
}

load_file-IsLoaded_example :
    IsLoaded small_disk 1 2 0x10_0000
      (3 ∷ 5 ∷ [])
      small_volume
      (load_file 512 small_int_13 nothing 2 0x1000 0x10_0000 small_volume)
unfolding word_at
load_file-IsLoaded_example =
    load_file-IsLoaded small_int_13 nothing small_disk 1 (λ dap buffer k lt. refl) 2 0x1000 2
      0x10_0000 3 (3 ∷ 5 ∷ []) small_volume small-HasSize (omega arith) refl (omega arith) refl
      (inr (5 ∷ [], refl, (third-IsFound, refl, (fifth-IsFound, inl refl)), refl)) (omega arith)
      (omega arith) (omega arith)

-- A directory at 0x2000 with one file: its entry, its stream extension and its name `K`.
abbrev dir_mem : Mem
dir_mem a =
    if a == 0x2000
    then 0x85
    else (if a == 0x2001 then 2 else (if a == 0x2023 then 1 else (if a == 0x2042 then b'K' else 0)))

abbrev dir_volume : Volume
dir_volume = record { mem = dir_mem; boot_record = small_record; upcase_table = λ c. c }

char_small : (p : ℕ) → p < 15 → raw_char dir_mem 0x2000 0 p < 128
char_small p lt = ground arith

only_entry : (k : ℕ) → k < 16 → dir_mem (entry_at 0x2000 k) ≡ 0x85 → k ≡ 0
only_entry k lt e = ground (arith, e)

dir_entries :
    (k : ℕ) → k < 16 → entry_type dir_mem (entry_at 0x2000 k) ≡ 0x85 → IsEntry dir_mem 0x2000 k
dir_entries k lt e =
    subst (IsEntry dir_mem 0x2000) (sym (only_entry k lt e))
      (record { count = omega arith; named = omega arith; room = omega arith; ascii = char_small })

read_file_exfat_helper-load_found_example :
    (found : Option ℕ) × IsFirst (λ c. c) dir_mem 0x2000 (b'K' ∷ b'/' ∷ []) 1 16 0 0 found
    × (read_file_exfat_helper 512 small_int_13 nothing 1
          (b'K' ∷ b'/' ∷ [])
          1
          0x2000
          1
          0x2000
          dir_volume
        ≡ load_found 512 small_int_13 nothing 1 0x2000 0x2000 found dir_volume)
read_file_exfat_helper-load_found_example =
    read_file_exfat_helper-load_found small_int_13 nothing 1 (b'K' ∷ b'/' ∷ []) 1 0x2000 1 0x2000 1
      dir_volume small-HasSize (omega arith) (λ c lt. lt) dir_entries

abbrev kernel_path : List ℕ
kernel_path = b'/' ∷ b's' ∷ b'y' ∷ b's' ∷ b'/' ∷ b'/' ∷ b'k' ∷ []

read_file_exfat-follow_example :
    read_file_exfat 512 small_int_13 nothing 1 kernel_path 0x10_0000
    ≡ follow 512 small_int_13 nothing 1 ((b's' ∷ b'y' ∷ b's' ∷ []) ∷ (b'k' ∷ []) ∷ []) 0x10_0000
read_file_exfat-follow_example =
    read_file_exfat-follow 512 small_int_13 nothing 1 kernel_path 0x10_0000

-- A boot record with the heap at 100 and the root in cluster 4; the root has an upcase table.
abbrev boot_sector : Mem
boot_sector k = if k == 88 then 100 else (if k == 96 then 4 else 0)

abbrev root_sector : Mem
root_sector k = if k == 0 then 0x82 else (if k == 20 then 3 else 0)

abbrev boot_disk : ℕ → ℕ → ℕ
boot_disk lba k =
    if lba == 0x100
    then boot_sector k
    else (if lba == 0x166 then root_sector k else (lba + k) % 256)

abbrev boot_int_13 : BiosDap → Mem → Mem
boot_int_13 dap buffer k = boot_disk (lba_of dap) k

only_table : (e : ℕ) → e < 16 → root_sector (32 * e) ≡ 0x82 → e ≡ 0
only_table e lt mark = ground (arith, mark)

boot-HasRoot : HasRoot boot_disk 1
unfolding word_at
boot-HasRoot = record {
  size = record { shift = omega arith; power = refl; small = omega arith };
  root = record { from = omega arith; to = omega arith; heap = omega arith; fat = omega arith };
  upcase = λ e lt mark.
      subst (λ (e : ℕ). InReach (boot_disk 0x100) (first_cluster root_sector (32 * e)))
        (sym (only_table e lt mark))
        (record { from = omega arith; to = omega arith; heap = omega arith; fat = omega arith });
}

init_exfat-Initialised_example :
    Initialised boot_disk small_volume (init_exfat 512 boot_int_13 nothing small_volume)
init_exfat-Initialised_example =
    init_exfat-Initialised boot_int_13 nothing boot_disk (λ dap buffer k lt. refl) 1 small_volume
      boot-HasRoot
