-- ===== src/Exceptions.antt =====
-- arch/x86/core/isr.c: `init_exceptions`, and arch/x86/core/panic.c. The handlers only call
-- `kernel_panic`.
mod Examples
pub mod Gates
use loof_os.Base.{ℕ, zero, suc, List, [], ◌∷◌}
use loof_os.Machine.{Cmd, pure, out_of_fuel, ◌>>=◌, ◌>>◌}
use loof_os.State.{Kernel}
use loof_os.Idt.{idt_prot_intr, set_id}

-- The addresses of the assembly wrappers.
pub record Wrappers : Type 0 where
  pub divbyzero : ℕ
  pub debug : ℕ
  pub nonmask : ℕ
  pub breakpoint : ℕ
  pub overflow : ℕ
  pub boundrange : ℕ
  pub invalop : ℕ
  pub nodevice : ℕ
  pub doublefault : ℕ
  pub invaltss : ℕ
  pub nosegment : ℕ
  pub stackseg : ℕ
  pub genprotection : ℕ

unfoldable pub init_exceptions : Wrappers → Cmd Kernel (Unit {0})
init_exceptions w = do
  set_id 0 w.divbyzero 0x08 idt_prot_intr 0 1
  set_id 1 w.debug 0x08 idt_prot_intr 0 1
  set_id 2 w.nonmask 0x08 idt_prot_intr 0 1
  set_id 3 w.breakpoint 0x08 idt_prot_intr 0 1
  set_id 4 w.overflow 0x08 idt_prot_intr 0 1
  set_id 5 w.boundrange 0x08 idt_prot_intr 0 1
  set_id 6 w.invalop 0x08 idt_prot_intr 0 1
  set_id 7 w.nodevice 0x08 idt_prot_intr 0 1
  set_id 8 w.doublefault 0x08 idt_prot_intr 0 1
  set_id 10 w.invaltss 0x08 idt_prot_intr 0 1
  set_id 11 w.nosegment 0x08 idt_prot_intr 0 1
  set_id 12 w.stackseg 0x08 idt_prot_intr 0 1
  set_id 13 w.genprotection 0x08 idt_prot_intr 0 1
  set_id 39 w.divbyzero 0x08 idt_prot_intr 0 1
  pure tt
