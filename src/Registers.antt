-- ===== src/Registers.antt =====
-- arch/x86/core/registers.h and the interrupt frame of arch/x86/core/isr.h.
use loof_os.Base.{ℕ}

pub record GenRegisterSet : Type 0 where
  pub edi : ℕ
  pub esi : ℕ
  pub ebp : ℕ
  pub ebx : ℕ
  pub edx : ℕ
  pub ecx : ℕ
  pub eax : ℕ
  pub esp : ℕ

pub record SegRegisterSet : Type 0 where
  pub ds : ℕ
  pub es : ℕ
  pub fs : ℕ
  pub gs : ℕ

pub record InterruptFrame : Type 0 where
  pub eip : ℕ
  pub cs : ℕ
  pub eflags : ℕ
  pub esp : ℕ
  pub ss : ℕ
