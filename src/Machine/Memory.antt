-- ===== src/Machine/Memory.antt =====
-- Reads after writes.
use mathlib.Core.Path.{fun_ext}
use loof_os.Base.{ℕ, ◌<◌, ◌^◌, ◌≡◌, ◌≢◌, arith}
use loof_os.Machine.{Mem, write, ok, bit32}

pub write_self : (h : Mem) (a v : ℕ) → write h a v a ≡ v
unfolding write
write_self h a v = ground arith

pub write_ne : (h : Mem) (a v x : ℕ) → x ≢ a → write h a v x ≡ h x
unfolding write
write_ne h a v x ne = ground arith

pub write-write : (h : Mem) (a v w : ℕ) → write (write h a v) a w ≡ write h a w
unfolding write
write-write h a v w = fun_ext λ x. ground arith

pub bit32-ok : {S : Type 0} (s : ℕ) (h : S) → s < 32 → bit32 s h ≡ ok (2 ^ s) h
unfolding bit32
bit32-ok s h lt = ground arith
