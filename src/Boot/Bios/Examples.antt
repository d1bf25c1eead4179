-- ===== src/Boot/Bios/Examples.antt =====
-- The reads and the scan with a disk and a BIOS that answer by formulas.
use loof_os.Base.{
  ℕ, ◌+◌, ◌-◌, ◌%◌, ◌^◌, ◌<◌, ◌≤◌, ◌≡◌, refl, arith, ◌⊎◌, ltb, leb, ◌==◌, ◌&&◌, if◌then◌else◌, suc,
  zero,
}
use loof_os.Machine.{Mem, Cmd, ok}
use loof_os.Boot.Bios.{BiosDap, bios_ext_read, bios_mem_scan}
use loof_os.Boot.Bios.Read.{lba_of, Loaded, bios_ext_read-Loaded}
use loof_os.Boot.Bios.Scan.{Described, Collected, bios_mem_scan-Collected}

abbrev sample_disk : ℕ → ℕ → ℕ
sample_disk lba k = (lba + k) % 256

abbrev sample_int_13 : BiosDap → Mem → Mem
sample_int_13 dap buffer k = sample_disk (lba_of dap) k

abbrev silent : Mem
silent a = 0

bios_ext_read-Loaded_example :
    Loaded sample_disk 512 0x100 3 0x10_0000 silent
      (bios_ext_read 512 sample_int_13 silent 0x10_0000 0x100 3 silent)
bios_ext_read-Loaded_example =
    bios_ext_read-Loaded 512 sample_int_13 sample_disk (λ dap buffer k inside. refl) silent silent
      0x10_0000 0x100 3 (omega arith) (omega arith) (omega arith) (omega arith)

-- Two ranges, asked for with 0 and 1.
abbrev sample_block : ℕ → ℕ → ℕ
sample_block i k = i + k

abbrev sample_token : ℕ → ℕ
sample_token i = i % 2

abbrev fill : ℕ → ℕ → Mem → Mem
fill edi i h a = if leb edi a && ltb a (edi + 24) then sample_block i (a - edi) else h a

abbrev sample_int_15 : (ebx edi : ℕ) → Cmd Mem ℕ
sample_int_15 ebx edi h = ok (if ebx == 0 then 1 else 0) (fill edi ebx h)

fill_in : (edi i k : ℕ) (h : Mem) → k < 24 → fill edi i h (edi + k) ≡ sample_block i k
fill_in edi i k h lt = ground arith

fill_out : (edi i a : ℕ) (h : Mem) → (a < edi) ⊎ (edi + 24 ≤ a) → fill edi i h a ≡ h a
fill_out edi i a h out = ground (arith, out)

sample-Described :
    (i edi : ℕ) (h : Mem)
    → i < 2
    → edi + 24 ≤ 2 ^ 32
    → Described (sample_block i) (sample_token (i + 1)) edi h (sample_int_15 (sample_token i) edi h)
sample-Described zero edi h lt fits = record {
  after = fill edi 0 h;
  returns = refl;
  bytes = λ k inside. fill_in edi 0 k h inside;
  others = λ a out. fill_out edi 0 a h out;
}
sample-Described (suc zero) edi h lt fits = record {
  after = fill edi 1 h;
  returns = refl;
  bytes = λ k inside. fill_in edi 1 k h inside;
  others = λ a out. fill_out edi 1 a h out;
}
sample-Described (suc (suc i)) edi h lt fits = absurd (omega (arith, lt))

bios_mem_scan-Collected_example :
    Collected sample_block 2 0x8000 silent (bios_mem_scan sample_int_15 0x8000 64 silent)
bios_mem_scan-Collected_example =
    bios_mem_scan-Collected sample_int_15 2 sample_token sample_block refl refl
      (λ i pos lt. omega (arith, pos, lt)) sample-Described 0x8000 64 silent (omega arith)
      (omega arith) (omega arith)
