-- ===== src/Boot/Exfat.antt =====
-- boot/x86/fs/exfat.c: files of an exFAT volume at sector 0x100 of the disk, in units of 512 bytes. A
-- buffer on the stack is a memory of its own, from address 0, past whose end lies the stack.
pub mod File
pub mod Sectors
pub mod Chain
pub mod Contiguous
pub mod Load
pub mod Names
pub mod Find
pub mod Search
pub mod Walk
pub mod Init
mod Examples
use loof_os.Base.{
  ℕ, zero, suc, ◌+◌, ◌-◌, ◌*◌, ◌/◌, ◌%◌, ◌^◌, Bool, true, false, List, [], ◌∷◌, ltb, leb, ◌==◌,
  if◌then◌else◌, add32, sub32, u32,
}
use loof_os.Machine.{Mem, write, word_at, Cmd, Run, ok, undefined, out_of_fuel, pure, ◌>>=◌, ◌>>◌}
use loof_os.Machine.Ints.{int_add, int_mul, int_rem}
use loof_os.Boot.Bios.{BiosDap, bios_ext_read}

-- The memory, and the static variables: the boot record by its bytes, and the upcase table.
pub record Volume : Type 0 where
  pub mem : Mem
  pub boot_record : Mem
  pub upcase_table : ℕ → ℕ

abbrev pub fat_offset : Mem → ℕ
fat_offset record' = word_at record' 80

abbrev pub cluster_heap_offset : Mem → ℕ
cluster_heap_offset record' = word_at record' 88

abbrev pub root_first_cluster : Mem → ℕ
root_first_cluster record' = word_at record' 96

abbrev pub sectors_per_cluster_shift : Mem → ℕ
sectors_per_cluster_shift record' = record' 109

-- The fields of a directory entry at an address.
abbrev pub half_at : Mem → ℕ → ℕ
half_at h a = h a + h (a + 1) * 256

abbrev pub entry_type : Mem → ℕ → ℕ
entry_type h a = h a

-- Of an up-case table's entry and of a stream extension.
abbrev pub first_cluster : Mem → ℕ → ℕ
first_cluster h a = word_at h (a + 20)

-- Of a file's entry.
abbrev pub secondary_count : Mem → ℕ → ℕ
secondary_count h a = h (a + 1)

-- Of a stream extension.
abbrev pub name_length : Mem → ℕ → ℕ
name_length h a = h (a + 3)

abbrev pub data_length : Mem → ℕ → ℕ
data_length h a = word_at h (a + 24) + word_at h (a + 28) * 2 ^ 32

-- Of a file name entry.
abbrev pub name_char : Mem → ℕ → ℕ → ℕ
name_char h a x = half_at h (a + 2 + 2 * x)

unfoldable pub get_record : Cmd Volume Mem
get_record v = ok v.boot_record v

unfoldable pub get_mem : Cmd Volume Mem
get_mem v = ok v.mem v

unfoldable pub get_upcase : Cmd Volume (ℕ → ℕ)
get_upcase v = ok v.upcase_table v

unfoldable pub set_upcase : (ℕ → ℕ) → Cmd Volume (Unit {0})
set_upcase table v = ok tt (record v { upcase_table = table })

unfoldable pub set_record : Mem → Cmd Volume (Unit {0})
set_record bytes v = ok tt (record v { boot_record = bytes })

abbrev pub undefined_here : {A : Type 0} → Cmd Volume A
undefined_here v = undefined

-- A shift of an `uint32_t`.
unfoldable pub shl32 : (w s : ℕ) → Cmd Volume ℕ
shl32 w s = if ltb s 32 then pure (u32 (w * 2 ^ s)) else undefined_here

-- What a read leaves, in the memory or in a buffer.
unfoldable pub in_memory : Run Mem (Unit {0}) → Cmd Volume (Unit {0})
in_memory (ok _ h) v = ok tt (record v { mem = h })
in_memory undefined v = undefined
in_memory out_of_fuel v = out_of_fuel

unfoldable pub in_buffer : Run Mem (Unit {0}) → Cmd Volume Mem
in_buffer (ok _ buffer) v = ok buffer v
in_buffer undefined v = undefined
in_buffer out_of_fuel v = out_of_fuel

-- `for (int i = 0; i < 128; i++)`
unfoldable pub upcase_loop : (left i : ℕ) → Cmd Volume (Unit {0})
upcase_loop zero i = pure tt
upcase_loop (suc left) i = do
  table ← get_upcase
  set_upcase (write table i i)
  upcase_loop left (i + 1)

-- `memcpy(upcase_table, load_buffer, 128)`, of 64 entries of two bytes.
unfoldable pub load_upcase : Mem → Cmd Volume (Unit {0})
load_upcase buffer = do
  table ← get_upcase
  set_upcase (λ i. if ltb i 64 then half_at buffer (2 * i) else table i)

module _ (drive_bytes_per_sector : ℕ) (int_13 : BiosDap → Mem → Mem) (stack : Mem) where
  unfoldable pub read_to : (dest lba count : ℕ) → Cmd Volume (Unit {0})
  read_to dest lba count v =
      in_memory (bios_ext_read drive_bytes_per_sector int_13 stack dest lba count v.mem) v

  unfoldable pub read_buffer : (lba count : ℕ) → Cmd Volume Mem
  read_buffer lba count v =
      in_buffer (bios_ext_read drive_bytes_per_sector int_13 stack 0 lba count stack) v

  -- `x * 512 / drive_bytes_per_sector`
  unfoldable pub to_sectors : ℕ → Cmd Volume ℕ
  to_sectors x =
      if drive_bytes_per_sector == 0
      then undefined_here
      else pure (u32 (x * 512) / drive_bytes_per_sector)

  unfoldable pub get_heap_lba : ℕ → Cmd Volume ℕ
  get_heap_lba index = do
    r ← get_record
    offset ← shl32 (sub32 index 2) (sectors_per_cluster_shift r)
    to_sectors (add32 (add32 0x100 (cluster_heap_offset r)) offset)

  unfoldable pub get_fat_lba : ℕ → Cmd Volume ℕ
  get_fat_lba index = do
    r ← get_record
    to_sectors (add32 (add32 0x100 (fat_offset r)) (u32 (index * 4) / 512))

  unfoldable pub get_cluster_size : ℕ → Cmd Volume ℕ
  get_cluster_size size = do
    r ← get_record
    units ← shl32 size (sectors_per_cluster_shift r)
    to_sectors units

  -- `for (int i = 0; i < drive_bytes_per_sector; i += 32)`
  unfoldable pub root_loop : (left i : ℕ) → Mem → Cmd Volume (Unit {0})
  root_loop zero i buffer = pure tt
  root_loop (suc left) i buffer =
      let rest = root_loop left (i + 32) buffer in
      if entry_type buffer i == 0x82
      then (do
        lba ← get_heap_lba (first_cluster buffer i)
        table ← read_buffer lba 1
        load_upcase table)
      else rest

  unfoldable pub init_exfat : Cmd Volume (Unit {0})
  init_exfat = do
    start ← to_sectors 0x100
    bytes ← read_buffer start 1
    set_record bytes
    upcase_loop 128 0
    lba ← get_heap_lba (root_first_cluster bytes)
    root ← read_buffer lba 1
    root_loop ((drive_bytes_per_sector + 31) / 32) 0 root
