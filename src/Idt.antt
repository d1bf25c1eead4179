-- ===== src/Idt.antt =====
-- arch/x86/core/idt.c: the interrupt descriptor table, which lies on the kernel's heap.
mod Examples
pub mod Gate
use loof_os.Base.{ℕ, ◌+◌, ◌*◌, ◌/◌, ◌%◌, ◌^◌, add32}
use loof_os.Machine.{Cmd, ok, ◌>>=◌, ◌>>◌}
use loof_os.State.{Kernel, on_mem, store}
use loof_os.Alloc.{kernel_allocate}

abbrev pub idt_limit : ℕ
idt_limit = 256

abbrev pub idt_prot_intr : ℕ
idt_prot_intr = 0xe

-- `struct idt_desc`, eight bytes.
pub record IdtDesc : Type 0 where
  pub offset1 : ℕ
  pub selector : ℕ
  pub unused : ℕ
  pub type : ℕ
  pub s : ℕ
  pub dpl : ℕ
  pub present : ℕ
  pub offset2 : ℕ

-- The two words of a descriptor, its bit-fields lowest first.
unfoldable pub low_word : IdtDesc → ℕ
low_word d = d.offset1 % 2 ^ 16 + d.selector % 2 ^ 16 * 2 ^ 16

unfoldable pub high_word : IdtDesc → ℕ
high_word d =
    d.unused % 2 ^ 8
    + d.type % 16 * 2 ^ 8
    + d.s % 2 * 2 ^ 12
    + d.dpl % 4 * 2 ^ 13
    + d.present % 2 * 2 ^ 15
    + d.offset2 % 2 ^ 16 * 2 ^ 16

-- What `set_id` writes for a handler at `offset`.
unfoldable pub descriptor : (offset selector type dpl present : ℕ) → IdtDesc
descriptor offset selector type dpl present = record {
  offset1 = offset % 2 ^ 16;
  selector = selector;
  unused = 0;
  type = type;
  s = 0;
  dpl = dpl;
  present = present;
  offset2 = offset / 2 ^ 16 % 2 ^ 16;
}

unfoldable pub set_id : (idt_pos offset selector type dpl present : ℕ) → Cmd Kernel (Unit {0})
set_id idt_pos offset selector type dpl present k =
    let d = descriptor offset selector type dpl present in
    let at = add32 k.idt (8 * idt_pos) in
    (store at (low_word d) >> store (add32 at 4) (high_word d)) k

-- The table is not cleared. `idtr` is kept for `lidt` alone and is not part of the state.
unfoldable pub init_idt : Cmd Kernel (Unit {0})
init_idt = do
  table ← on_mem (kernel_allocate (8 * idt_limit))
  λ k. ok tt (record k { idt = table })
