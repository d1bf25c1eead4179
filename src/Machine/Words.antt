-- ===== src/Machine/Words.antt =====
-- Words after words.
use loof_os.Base.{ℕ, ◌+◌, ◌^◌, ◌≤◌, ◌<◌, ◌≡◌, ◌⊎◌, ◌∙◌, refl, arith}
use loof_os.Machine.{Mem, write, word_at, put_word}
use loof_os.Machine.Memory.{write_ne}

-- The bytes that a word does not occupy.
pub put_word_ne : (h : Mem) (a v x : ℕ) → (x < a) ⊎ (a + 4 ≤ x) → put_word h a v x ≡ h x
unfolding put_word
put_word_ne h a v x out =
    write_ne _ (a + 3) _ x (ground arith)
    ∙ write_ne _ (a + 2) _ x (ground arith)
    ∙ write_ne _ (a + 1) _ x (ground arith)
    ∙ write_ne h a _ x (ground arith)

pub word_at-put_word_self : (h : Mem) (a v : ℕ) → v < 2 ^ 32 → word_at (put_word h a v) a ≡ v
unfolding word_at put_word write
word_at-put_word_self h a v small = ground arith

pub word_at-put_word_ne :
    (h : Mem) (a v b : ℕ) → (b + 4 ≤ a) ⊎ (a + 4 ≤ b) → word_at (put_word h a v) b ≡ word_at h b
unfolding word_at
word_at-put_word_ne h a v b apart = rw (
  put_word_ne h a v b (ground arith),
  put_word_ne h a v (b + 1) (ground arith),
  put_word_ne h a v (b + 2) (ground arith),
  put_word_ne h a v (b + 3) (ground arith),
)

pub word_at-lt : (h : Mem) (a : ℕ) → word_at h a < 2 ^ 32
unfolding word_at
word_at-lt h a = omega arith

pub word_at-same :
    (h g : Mem) (a : ℕ) → ((x : ℕ) → a ≤ x → x < a + 4 → h x ≡ g x) → word_at h a ≡ word_at g a
unfolding word_at
word_at-same h g a same =
    rw
      (
        same a (omega arith) (omega arith),
        same (a + 1) (omega arith) (omega arith),
        same (a + 2) (omega arith) (omega arith),
        same (a + 3) (omega arith) (omega arith),
      )
      refl
