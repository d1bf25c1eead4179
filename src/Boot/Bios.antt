-- ===== src/Boot/Bios.antt =====
-- boot/x86/bios.c: sectors and the memory map through BIOS calls. The BIOS is a parameter: what the
-- extended read puts into the buffer of one sector, and what a call of the memory map returns in
-- `ebx` and writes at `edi`.
pub mod Read
pub mod Scan
mod Examples
use loof_os.Base.{
  ℕ, zero, suc, ◌+◌, ◌*◌, ◌^◌, Bool, true, false, ltb, ◌==◌, if◌then◌else◌, add32, u32,
}
use loof_os.Machine.{Mem, write, Cmd, Run, ok, pure, ◌>>=◌, ◌>>◌}
use loof_os.Machine.Ints.{int_add, int_mul}

-- The disk address packet, without the fields that never change.
pub record BiosDap : Type 0 where
  pub lba_low : ℕ
  pub lba_high : ℕ

unfoldable pub next_lba : BiosDap → BiosDap
next_lba dap =
    let low = add32 dap.lba_low 1 in
    record { lba_low = low; lba_high = if low == 0 then add32 dap.lba_high 1 else dap.lba_high }

module _ (drive_bytes_per_sector : ℕ) (int_13 : BiosDap → Mem → Mem) where
  unfoldable pub store : ℕ → ℕ → Cmd Mem (Unit {0})
  store a v h = ok tt (write h a v)

  -- `for (int j = 0; j < drive_bytes_per_sector; j++)`
  unfoldable pub copy_loop : (left j i output_address : ℕ) → Mem → Cmd Mem (Unit {0})
  copy_loop zero j i output_address temp_buffer = pure tt
  copy_loop (suc left) j i output_address temp_buffer = do
    start ← int_mul drive_bytes_per_sector i
    k ← int_add j start
    store (u32 (output_address + k)) (temp_buffer j)
    copy_loop left (j + 1) i output_address temp_buffer

  -- `for (int i = 0; i < length; i++)`
  unfoldable pub read_loop : (left i output_address : ℕ) → BiosDap → Mem → Cmd Mem (Unit {0})
  read_loop zero i output_address temp_dap temp_buffer = pure tt
  read_loop (suc left) i output_address temp_dap temp_buffer = do
    copy_loop drive_bytes_per_sector 0 i output_address (int_13 temp_dap temp_buffer)
    read_loop left (i + 1) output_address (next_lba temp_dap) (int_13 temp_dap temp_buffer)

  -- The buffer is on the stack, and starts with what lies there.
  unfoldable pub bios_ext_read : Mem → (output_address lba_offset length : ℕ) → Cmd Mem (Unit {0})
  bios_ext_read stack output_address lba_offset length =
      read_loop length 0 output_address (record { lba_low = lba_offset; lba_high = 0 }) stack

abbrev pub bios_registers_bytes : ℕ
bios_registers_bytes = 24

module _ (int_15 : (ebx edi : ℕ) → Cmd Mem ℕ) where
  -- `for (int i = 0; i < *length; i++)`: what `*length` is at the end.
  unfoldable pub scan_loop : (left i length ebx edi : ℕ) → Cmd Mem ℕ
  scan_loop zero i length ebx edi = pure length
  scan_loop (suc left) i length ebx edi = do
    ebx' ← int_15 ebx edi
    let after = scan_loop left (i + 1) length ebx' (add32 edi bios_registers_bytes)
    if ebx' == 0 then pure (i + 1) else after

  -- A length that is no positive `int` gives no round.
  unfoldable pub bios_mem_scan : (buffer length : ℕ) → Cmd Mem ℕ
  bios_mem_scan buffer length =
      scan_loop (if ltb length (2 ^ 31) then length else 0) 0 length 0 buffer
