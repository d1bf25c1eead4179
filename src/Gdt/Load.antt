-- ===== src/Gdt/Load.antt =====
-- What `init_gdt` leaves in the table.
use loof_os.Base.{ℕ, ◌+◌, ◌*◌, ◌^◌, ◌≤◌, ◌<◌, ◌≡◌, refl, ◌∙◌, ◌⊎◌, arith}
use loof_os.Machine.{Mem, Run, ok, undefined, out_of_fuel}
use loof_os.State.{Kernel}
use loof_os.Gdt.{
  SegmentDesc, segment_low, segment_high, null_segment, flat_segment, tss_segment, init_gdt,
}
use loof_os.Gdt.Flat.{
  segment_of, segment_at, half_at, stack_half, end_half, segment_mem, segment_mem_self,
  segment_mem_others, segment_mem_before, one, two, three, four, five, halves, loaded,
  init_gdt-loaded, halves_others, late, task,
}

-- What the processor finds in the table at `gdt`, and what has changed.
pub record Loaded (gdt tss : ℕ) (k k' : Kernel) : Type 0 where
  null :
      segment_at k'.mem (gdt + 8 * 0) ≡ record { base = 0; last = 0; access = 0; long = 0; big = 0 }
  kernel_code :
      segment_at k'.mem (gdt + 8 * 1)
      ≡ record { base = 0; last = 0xffff_ffff; access = 0x9a; long = 0; big = 1 }
  kernel_data :
      segment_at k'.mem (gdt + 8 * 2)
      ≡ record { base = 0; last = 0xffff_ffff; access = 0x92; long = 0; big = 1 }
  user_code :
      segment_at k'.mem (gdt + 8 * 3)
      ≡ record { base = 0; last = 0xffff_ffff; access = 0xfa; long = 0; big = 1 }
  user_data :
      segment_at k'.mem (gdt + 8 * 4)
      ≡ record { base = 0; last = 0xffff_ffff; access = 0xf2; long = 0; big = 1 }
  task :
      segment_at k'.mem (gdt + 8 * 5)
      ≡ record { base = tss; last = 107; access = 0x89; long = 0; big = 1 }
  stack : k'.tss_esp0 ≡ 0xcfff_fffc
  stack_segment : half_at k'.mem (tss + 8) ≡ 0x10
  port_map : half_at k'.mem (tss + 102) ≡ 108
  others :
      (x : ℕ)
      → (x < gdt) ⊎ (gdt + 48 ≤ x)
      → (x < tss + 8) ⊎ (tss + 10 ≤ x)
      → (x < tss + 102) ⊎ (tss + 104 ≤ x)
      → k'.mem x ≡ k.mem x
  same : k' ≡ record k { mem = k'.mem; tss_esp0 = k'.tss_esp0 }

abbrev pub Loads : ℕ → ℕ → Kernel → Run Kernel (Unit {0}) → Type 0
Loads gdt tss k (ok _ k') = Loaded gdt tss k k'
Loads gdt tss k undefined = ⊥
Loads gdt tss k out_of_fuel = ⊥

-- With the table and the task state segment within the address space and apart: `init_gdt` returns.
-- The processor then finds the null segment, code and data for ring 0 and for ring 3 that cover all
-- of the address space with 32-bit operands, and the task state segment with its address and length,
-- whose stack for ring 0 is the one at 0xcffffffc in segment 0x10 and whose port map is past its end.
-- Nothing else has changed: not the table past its sixth entry, nor the rest of the task state
-- segment.
pub init_gdt-Loads :
    (gdt tss : ℕ) (k : Kernel)
    → gdt + 2048 ≤ 2 ^ 32
    → tss + 108 ≤ 2 ^ 32
    → (tss + 108 ≤ gdt) ⊎ (gdt + 2048 ≤ tss)
    → Loads gdt tss k (init_gdt gdt tss k)
init_gdt-Loads gdt tss k room tss_room apart = rw (init_gdt-loaded gdt tss room k) (record {
  null =
      kept 0 (omega arith)
      ∙ before 4 0 (flat_segment 0 3) (four gdt tss room k) (omega arith)
      ∙ before 3 0 (flat_segment 1 3) (three gdt tss room k) (omega arith)
      ∙ before 2 0 (flat_segment 0 0) (two gdt tss room k) (omega arith)
      ∙ before 1 0 (flat_segment 1 0) (one gdt tss room k) (omega arith)
      ∙ self 0 null_segment k.mem (omega arith) (omega arith);
  kernel_code =
      kept 1 (omega arith)
      ∙ before 4 1 (flat_segment 0 3) (four gdt tss room k) (omega arith)
      ∙ before 3 1 (flat_segment 1 3) (three gdt tss room k) (omega arith)
      ∙ before 2 1 (flat_segment 0 0) (two gdt tss room k) (omega arith)
      ∙ self 1 (flat_segment 1 0) (one gdt tss room k) (omega arith) (omega arith);
  kernel_data =
      kept 2 (omega arith)
      ∙ before 4 2 (flat_segment 0 3) (four gdt tss room k) (omega arith)
      ∙ before 3 2 (flat_segment 1 3) (three gdt tss room k) (omega arith)
      ∙ self 2 (flat_segment 0 0) (two gdt tss room k) (omega arith) (omega arith);
  user_code =
      kept 3 (omega arith)
      ∙ before 4 3 (flat_segment 0 3) (four gdt tss room k) (omega arith)
      ∙ self 3 (flat_segment 1 3) (three gdt tss room k) (omega arith) (omega arith);
  user_data =
      kept 4 (omega arith)
      ∙ self 4 (flat_segment 0 3) (four gdt tss room k) (omega arith) (omega arith);
  task = task gdt tss room k tss_room apart;
  stack = refl;
  stack_segment = stack_half gdt tss room k tss_room apart;
  port_map = end_half gdt tss room k tss_room apart;
  same = refl;
  others = λ x out away away'.
      away_from 5 (tss_segment tss) (halves gdt tss room k) x out (omega arith)
      ∙ halves_others gdt tss room k tss_room apart x away away'
      ∙ away_from 4 (flat_segment 0 3) (four gdt tss room k) x out (omega arith)
      ∙ away_from 3 (flat_segment 1 3) (three gdt tss room k) x out (omega arith)
      ∙ away_from 2 (flat_segment 0 0) (two gdt tss room k) x out (omega arith)
      ∙ away_from 1 (flat_segment 1 0) (one gdt tss room k) x out (omega arith)
      ∙ away_from 0 null_segment k.mem x out (omega arith);
})
  where
    kept :
        (j : ℕ)
        → j < 5
        → segment_at (loaded gdt tss room k) (gdt + 8 * j)
          ≡ segment_at (five gdt tss room k) (gdt + 8 * j)
    kept = late gdt tss room k tss_room apart

    before :
        (i j : ℕ) (d : SegmentDesc) (h : Mem)
        → j < i
        → segment_at (segment_mem gdt tss room i d h) (gdt + 8 * j) ≡ segment_at h (gdt + 8 * j)
    before = segment_mem_before gdt tss room

    self :
        (i : ℕ) (d : SegmentDesc) (h : Mem)
        → segment_low d < 2 ^ 32
        → segment_high d < 2 ^ 32
        → segment_at (segment_mem gdt tss room i d h) (gdt + 8 * i)
          ≡ segment_of (segment_low d) (segment_high d)
    self = segment_mem_self gdt tss room

    away_from :
        (i : ℕ) (d : SegmentDesc) (h : Mem) (x : ℕ)
        → (x < gdt) ⊎ (gdt + 48 ≤ x)
        → i < 6
        → segment_mem gdt tss room i d h x ≡ h x
    away_from i d h x out lt = segment_mem_others gdt tss room i d h x (ground (arith, out, lt))
