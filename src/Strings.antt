-- ===== src/Strings.antt =====
-- common/string.c: filling, copying and comparing bytes in memory.
mod Examples
pub mod Copy
pub mod Compare
use loof_os.Base.{ℕ, zero, suc, ◌+◌, ◌%◌, ◌==◌, if◌then◌else◌, add32, sub32, u8}
use loof_os.Machine.{Mem, Cmd, ok, pure, ◌>>=◌, ◌>>◌, write}

-- `*(uint8_t*)a`, and the assignment to it.
unfoldable pub load_byte : ℕ → Cmd Mem ℕ
load_byte a h = ok (h a % 256) h

unfoldable pub store_byte : ℕ → ℕ → Cmd Mem (Unit {0})
store_byte a v h = ok tt (write h a v)

-- The loops at round `i`, with `left` rounds to go.
unfoldable pub memset_loop : (left i b c : ℕ) → Cmd Mem (Unit {0})
memset_loop zero i b c = pure tt
memset_loop (suc left) i b c = do store_byte (add32 b i) (u8 c); memset_loop left (i + 1) b c

unfoldable pub memset : (b c len : ℕ) → Cmd Mem ℕ
memset b c len = do memset_loop len 0 b c; pure b

unfoldable pub memcpy_loop : (left i dst src : ℕ) → Cmd Mem (Unit {0})
memcpy_loop zero i dst src = pure tt
memcpy_loop (suc left) i dst src = do
  v ← load_byte (add32 src i)
  store_byte (add32 dst i) v
  memcpy_loop left (i + 1) dst src

unfoldable pub memcpy : (dst src num : ℕ) → Cmd Mem ℕ
memcpy dst src num = do memcpy_loop num 0 dst src; pure dst

-- An `int` is its word.
unfoldable pub memcmp_loop : (left i truth guess : ℕ) → Cmd Mem ℕ
memcmp_loop zero i truth guess = pure 0
memcmp_loop (suc left) i truth guess = do
  t ← load_byte (add32 truth i)
  g ← load_byte (add32 guess i)
  if t == g then memcmp_loop left (i + 1) truth guess else pure (sub32 t g)

unfoldable pub memcmp : (truth guess len : ℕ) → Cmd Mem ℕ
memcmp truth guess len = memcmp_loop len 0 truth guess
