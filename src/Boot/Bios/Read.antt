-- ===== src/Boot/Bios/Read.antt =====
-- What `bios_ext_read` leaves in memory.
use native.Mathlib.Nat.{mul-le-mul_left, mul-add}
use loof_os.Base.{
  ℕ, zero, suc, ◌+◌, ◌*◌, ◌^◌, ◌<◌, ◌≤◌, ◌≡◌, refl, ap, ◌∙◌, arith, ◌⊎◌, inl, inr, u32, eq_or_ne,
}
use loof_os.Machine.{Mem, write, Run, ok}
use loof_os.Machine.Memory.{write_self, write_ne}
use loof_os.Machine.Ints.{int_add-pos, int_mul-pos}
use loof_os.Boot.Bios.{BiosDap, next_lba, store, copy_loop, read_loop, bios_ext_read}

module _ (drive_bytes_per_sector : ℕ) (int_13 : BiosDap → Mem → Mem) where
  -- The bytes from `j` of sector `i` of the output are those of the buffer.
  record Copied (left j i dest : ℕ) (buffer h : Mem) (m : Run Mem (Unit {0})) : Type 0 where
    after : Mem
    returns : m ≡ ok tt after
    bytes :
        (k : ℕ) → j ≤ k → k < j + left → after (dest + (k + drive_bytes_per_sector * i)) ≡ buffer k
    others :
        (a : ℕ)
        → (a < dest + (j + drive_bytes_per_sector * i))
          ⊎ (dest + (j + left + drive_bytes_per_sector * i) ≤ a)
        → after a ≡ h a

  copy_loop-Copied :
      (left j i dest : ℕ) (buffer h : Mem)
      → i < 2 ^ 31
      → j + left + drive_bytes_per_sector * i < 2 ^ 31
      → dest + (j + left + drive_bytes_per_sector * i) ≤ 2 ^ 32
      → Copied left j i dest buffer h
          (copy_loop drive_bytes_per_sector int_13 left j i dest buffer h)
  unfolding copy_loop store
  copy_loop-Copied zero j i dest buffer h index short fits = record {
    after = h;
    returns = refl;
    bytes = λ k low high. absurd (omega (arith, low, high));
    others = λ a out. refl;
  }
  copy_loop-Copied (suc left) j i dest buffer h index short fits =
      let start = drive_bytes_per_sector * i in
      let written = write h (dest + (j + start)) (buffer j) in
      let rest =
        copy_loop-Copied left (j + 1) i dest buffer written index (omega (arith, short))
          (omega (arith, fits)) in
      record {
        after = rest.after;
        returns =
            rw
              (
                int_mul-pos drive_bytes_per_sector i h index (omega (arith, short)),
                int_add-pos j start h (omega (arith, short)),
                in_range (dest + (j + start)) (omega (arith, fits)),
              )
              rest.returns;
        bytes = λ k low high. elim (eq_or_ne k j) [
          | inl e ↦
              rest.others (dest + (k + start)) (inl (omega (arith, e)))
              ∙ rw e (write_self h (dest + (j + start)) (buffer j))
          | inr ne ↦ rest.bytes k (omega (arith, low, ne)) (omega (arith, high))
        ];
        others = λ a out.
            rest.others a (ground (arith, out))
            ∙ write_ne h (dest + (j + start)) (buffer j) a (ground (arith, out));
      }
    where
      in_range : (n : ℕ) → n < 2 ^ 32 → u32 n ≡ n
      in_range n lt = omega (arith, lt)

-- The sector that a packet asks for.
abbrev pub lba_of : BiosDap → ℕ
lba_of dap = dap.lba_high * 2 ^ 32 + dap.lba_low

next_lba_lem :
    (dap : BiosDap)
    → dap.lba_low < 2 ^ 32
    → lba_of dap + 1 < 2 ^ 64
    → (lba_of (next_lba dap) ≡ lba_of dap + 1) × ((next_lba dap).lba_low < 2 ^ 32)
unfolding next_lba
next_lba_lem dap low fits = (ground arith, omega arith)

pub next_start : (b i : ℕ) → b * (i + 1) ≡ b * i + b
next_start b i = omega (arith, mul-add b i 1)

pub all_bytes : (b i left : ℕ) → b * (i + suc left) ≡ b * (i + 1 + left)
all_bytes b i left = ap (λ (n : ℕ). b * n) (omega arith)

-- The sectors are in memory, one after the other, and nothing else has changed.
pub record Loaded (disk : ℕ → ℕ → ℕ) (sector_bytes lba count dest : ℕ) (h : Mem)
    (m : Run Mem (Unit {0})) : Type 0 where
  pub after : Mem
  pub returns : m ≡ ok tt after
  pub bytes :
      (n k : ℕ)
      → n < count
      → k < sector_bytes
      → after (dest + (k + sector_bytes * n)) ≡ disk (lba + n) k
  pub others : (a : ℕ) → (a < dest) ⊎ (dest + sector_bytes * count ≤ a) → after a ≡ h a

module _ (sector_bytes : ℕ) (int_13 : BiosDap → Mem → Mem) (disk : ℕ → ℕ → ℕ)
    (reads : (dap : BiosDap) (buffer : Mem) (k : ℕ)
      → k < sector_bytes
      → int_13 dap buffer k ≡ disk (lba_of dap) k) where
  -- From sector `i`.
  record LoadedFrom (left i lba dest : ℕ) (h : Mem) (m : Run Mem (Unit {0})) : Type 0 where
    after : Mem
    returns : m ≡ ok tt after
    bytes :
        (n k : ℕ)
        → i ≤ n
        → n < i + left
        → k < sector_bytes
        → after (dest + (k + sector_bytes * n)) ≡ disk (lba + n) k
    others :
        (a : ℕ)
        → (a < dest + sector_bytes * i) ⊎ (dest + sector_bytes * (i + left) ≤ a)
        → after a ≡ h a

  read_loop-LoadedFrom :
      (left i lba dest : ℕ) (dap : BiosDap) (buffer h : Mem)
      → lba_of dap ≡ lba + i
      → dap.lba_low < 2 ^ 32
      → lba + (i + left) < 2 ^ 64
      → i + left < 2 ^ 31
      → sector_bytes * (i + left) < 2 ^ 31
      → dest + sector_bytes * (i + left) ≤ 2 ^ 32
      → LoadedFrom left i lba dest h (read_loop sector_bytes int_13 left i dest dap buffer h)
  unfolding read_loop
  read_loop-LoadedFrom zero i lba dest dap buffer h at low wide index short fits = record {
    after = h;
    returns = refl;
    bytes = λ n k from to inside. absurd (omega (arith, from, to));
    others = λ a out. refl;
  }
  read_loop-LoadedFrom (suc left) i lba dest dap buffer h at low wide index short fits =
      let upto : sector_bytes * (i + 1) ≤ sector_bytes * (i + suc left) =
        mul-le-mul_left sector_bytes (omega arith) in
      let step = next_start sector_bytes i in
      let total = all_bytes sector_bytes i left in
      let c =
        copy_loop-Copied sector_bytes int_13 sector_bytes 0 i dest (int_13 dap buffer) h
          (omega (arith, index)) (omega (arith, upto, step, total, short))
          (omega (arith, upto, step, total, fits)) in
      let next = next_lba_lem dap low (omega (arith, at, wide)) in
      let rest =
        read_loop-LoadedFrom left (i + 1) lba dest (next_lba dap) (int_13 dap buffer) c.after
          (omega (arith, next.0, at)) next.1 (omega (arith, wide)) (omega (arith, index))
          (omega (arith, upto, step, total, short)) (omega (arith, upto, step, total, fits)) in
      record {
        after = rest.after;
        returns = rw c.returns rest.returns;
        bytes = λ n k from to inside. elim (eq_or_ne n i) [
          | inl e ↦
              rest.others (dest + (k + sector_bytes * n)) (inl (rw e (omega (arith, inside, step))))
              ∙ rw e (c.bytes k (omega arith) (omega (arith, inside)))
              ∙ reads dap buffer k inside
              ∙ ap (λ (l : ℕ). disk l k) (omega (arith, at, e))
          | inr ne ↦ rest.bytes n k (omega (arith, from, ne)) (omega (arith, to)) inside
        ];
        others = λ a out.
            rest.others a (ground (arith, out, upto, step, total))
            ∙ c.others a (ground (arith, out, upto, step, total));
      }

  -- From a disk whose extended reads succeed (each puts the packet's sector into the buffer),
  -- `bios_ext_read` puts `length` whole sectors from `lba_offset` at the output address, one after
  -- the other, and changes no other byte, where they are fewer than 2^31 bytes and end within the
  -- address space. The sector numbers go on past 2^32.
  pub bios_ext_read-Loaded :
      (stack h : Mem) (dest lba length : ℕ)
      → lba < 2 ^ 32
      → length < 2 ^ 31
      → sector_bytes * length < 2 ^ 31
      → dest + sector_bytes * length ≤ 2 ^ 32
      → Loaded disk sector_bytes lba length dest h
          (bios_ext_read sector_bytes int_13 stack dest lba length h)
  unfolding bios_ext_read
  bios_ext_read-Loaded stack h dest lba length low count short fits =
      let r =
        read_loop-LoadedFrom length 0 lba dest (record { lba_low = lba; lba_high = 0 }) stack h
          (omega arith) low (omega (arith, low, count)) (omega (arith, count))
          (omega (arith, short)) (omega (arith, fits)) in
      record {
        after = r.after;
        returns = r.returns;
        bytes = λ n k lt inside. r.bytes n k (omega arith) (omega (arith, lt)) inside;
        others = λ a out. r.others a (ground (arith, out));
      }
