-- ===== src/Gdt.antt =====
-- arch/x86/core/gdt.c: the segment descriptors and the task state segment.
mod Examples
pub mod Flat
pub mod Load
use loof_os.Base.{ℕ, ◌+◌, ◌-◌, ◌*◌, ◌/◌, ◌%◌, ◌^◌, add32}
use loof_os.Machine.{Cmd, ok, pure, ◌>>=◌, ◌>>◌, write}
use loof_os.State.{Kernel, store}
use loof_os.Process.{set_tss_stack}

-- `struct gdt_segment_desc`, eight bytes.
pub record SegmentDesc : Type 0 where
  pub limit1 : ℕ
  pub base1 : ℕ
  pub a : ℕ
  pub rw' : ℕ
  pub dc : ℕ
  pub e : ℕ
  pub s : ℕ
  pub dpl : ℕ
  pub p : ℕ
  pub limit2 : ℕ
  pub zero' : ℕ
  pub l : ℕ
  pub db : ℕ
  pub g : ℕ
  pub base2 : ℕ

-- Its two words, the bit-fields lowest first.
abbrev pub segment_low : SegmentDesc → ℕ
segment_low d = d.limit1 % 2 ^ 16 + d.base1 % 2 ^ 16 * 2 ^ 16

abbrev pub segment_high : SegmentDesc → ℕ
segment_high d =
    d.base1 / 2 ^ 16 % 2 ^ 8
    + d.a % 2 * 2 ^ 8
    + d.rw' % 2 * 2 ^ 9
    + d.dc % 2 * 2 ^ 10
    + d.e % 2 * 2 ^ 11
    + d.s % 2 * 2 ^ 12
    + d.dpl % 4 * 2 ^ 13
    + d.p % 2 * 2 ^ 15
    + d.limit2 % 16 * 2 ^ 16
    + d.zero' % 2 * 2 ^ 20
    + d.l % 2 * 2 ^ 21
    + d.db % 2 * 2 ^ 22
    + d.g % 2 * 2 ^ 23
    + d.base2 % 2 ^ 8 * 2 ^ 24

abbrev pub null_segment : SegmentDesc
null_segment = record {
  limit1 = 0;
  base1 = 0;
  a = 0;
  rw' = 0;
  dc = 0;
  e = 0;
  s = 0;
  dpl = 0;
  p = 0;
  limit2 = 0;
  zero' = 0;
  l = 0;
  db = 0;
  g = 0;
  base2 = 0;
}

-- The four segments over all of the address space differ in `e` and `dpl`.
abbrev pub flat_segment : (e dpl : ℕ) → SegmentDesc
flat_segment e dpl = record null_segment {
  limit1 = 0xffff;
  rw' = 1;
  e = e;
  s = 1;
  dpl = dpl;
  p = 1;
  limit2 = 0xf;
  db = 1;
  g = 1;
}

-- sizeof(tss)
abbrev pub tss_bytes : ℕ
tss_bytes = 108

abbrev pub tss_segment : ℕ → SegmentDesc
tss_segment tss = record null_segment {
  limit1 = tss_bytes - 1;
  base1 = tss % 2 ^ 24;
  a = 1;
  e = 1;
  p = 1;
  db = 1;
  base2 = tss / 2 ^ 24;
}

-- The table and the task state segment are statics; `esp0` is a cell of its own.
module _ (gdt tss : ℕ) where
  unfoldable pub set_segment : ℕ → SegmentDesc → Cmd Kernel (Unit {0})
  set_segment i d = do
    store (add32 gdt (8 * i)) (segment_low d)
    store (add32 (add32 gdt (8 * i)) 4) (segment_high d)

  -- `*(uint16_t*)a`, in the assignment to it.
  unfoldable pub store_half : ℕ → ℕ → Cmd Kernel (Unit {0})
  store_half a v k =
      ok tt (record k { mem = write (write k.mem a (v % 256)) (a + 1) (v / 256 % 256) })

  unfoldable pub init_gdt : Cmd Kernel (Unit {0})
  init_gdt = do
    set_segment 0 null_segment
    set_segment 1 (flat_segment 1 0)
    set_segment 2 (flat_segment 0 0)
    set_segment 3 (flat_segment 1 3)
    set_segment 4 (flat_segment 0 3)
    store_half (tss + 8) 0x10
    set_tss_stack (0xd000_0000 - 4)
    store_half (tss + 102) tss_bytes
    set_segment 5 (tss_segment tss)
