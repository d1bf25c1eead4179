-- ===== src/Machine.antt =====
-- The machine that the C code runs on: byte-addressed memory, and commands over a state that
-- return, meet behaviour that C leaves undefined, or run out of the fuel of a loop.
pub mod Memory
pub mod Words
pub mod Ints
use loof_os.Base.{ℕ, ◌+◌, ◌*◌, ◌/◌, ◌%◌, ◌^◌, ◌==◌, if◌then◌else◌, ltb}

-- What each 32-bit address holds.
abbrev pub Mem : Type 0
Mem = ℕ → ℕ

unfoldable pub write : Mem → ℕ → ℕ → Mem
write h a v x = if x == a then v else h x

pub data Run (S A : Type 0) : Type 0 where
  ok : A → S → Run S A
  undefined : Run S A
  out_of_fuel : Run S A

abbrev pub Cmd : Type 0 → Type 0 → Type 0
Cmd S A = S → Run S A

abbrev pub pure : {S A : Type 0} → A → Cmd S A
pure = ok

module _ {S A B : Type 0} where
  abbrev pub and_then : Run S A → (A → Cmd S B) → Run S B
  and_then (ok a h) k = k a h
  and_then undefined k = undefined
  and_then out_of_fuel k = out_of_fuel

  infixl 5 ◌>>=◌ ◌>>◌
  abbrev pub ◌>>=◌ : Cmd S A → (A → Cmd S B) → Cmd S B
  m >>= k = λ h. and_then (m h) k

  abbrev pub ◌>>◌ : Cmd S A → Cmd S B → Cmd S B
  m >> n = m >>= λ _. n

-- `1 << s` on 32 bits: C leaves a shift by the width or more undefined.
unfoldable pub bit32 : {S : Type 0} → ℕ → Cmd S ℕ
bit32 s h = if ltb s 32 then ok (2 ^ s) h else undefined

-- A 32-bit word in memory, lowest byte first.
unfoldable pub word_at : Mem → ℕ → ℕ
word_at h a =
    h a % 256 + h (a + 1) % 256 * 256 + h (a + 2) % 256 * 65536 + h (a + 3) % 256 * 16777216

unfoldable pub put_word : Mem → ℕ → ℕ → Mem
put_word h a v =
    write (write (write (write h a (v % 256)) (a + 1) (v / 256 % 256)) (a + 2) (v / 65536 % 256))
      (a + 3) (v / 16777216 % 256)
