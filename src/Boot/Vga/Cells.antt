-- ===== src/Boot/Vga/Cells.antt =====
-- The cells and the cursor that the commands of vga.c leave.
use loof_os.Base.{
  ℕ, ◌+◌, ◌*◌, ◌/◌, ◌%◌, ◌^◌, ◌<◌, ◌≤◌, ◌≡◌, refl, ap, ◌∙◌, arith, bit_or, u16, u32, ltb_of_lt, ◌⊎◌,
  ◌≢◌,
}
use loof_os.Base.BitOr.{or_above, or_below}
use loof_os.Machine.{write, ok}
use loof_os.Machine.Ints.{int_add-pos, int_mul-pos, int_div-pos, int_rem-pos}
use loof_os.Boot.Vga.{
  Screen, text_buffer, outportb, inportb, put_half, widen, set_cursor_pos, put_cell, get_color,
  display_char, get_cursor_pos,
}

-- The character and colour that the screen shows in a cell.
unfoldable pub cell_at : Screen → ℕ → ℕ
cell_at s p = s.mem (text_buffer + 2 * p) % 256 + s.mem (text_buffer + 2 * p + 1) % 256 * 256

unfoldable pub cursor_of : Screen → ℕ
cursor_of s = s.registers 0x0e * 256 + s.registers 0x0f

-- The cursor moved to a cell.
abbrev pub place : Screen → ℕ → Screen
place s pos = record s {
  index = 0x0e;
  registers = write (write s.registers 0x0f (pos % 256)) 0x0e (pos / 256 % 256);
}

-- A cell written.
abbrev pub put : Screen → ℕ → ℕ → Screen
put s p v = record s { mem = put_half s.mem (u32 (text_buffer + 2 * p)) v }

pub cursor_of-place : (s : Screen) (pos : ℕ) → pos < 65536 → cursor_of (place s pos) ≡ pos
unfolding cursor_of write
cursor_of-place s pos lt = omega arith

pub cell_at-place : (s : Screen) (pos q : ℕ) → cell_at (place s pos) q ≡ cell_at s q
unfolding cell_at
cell_at-place s pos q = refl

pub place_low : (s : Screen) (pos : ℕ) → (place s pos).registers 0x0f < 256
unfolding write
place_low s pos = omega arith

pub place_high : (s : Screen) (pos : ℕ) → (place s pos).registers 0x0e < 256
unfolding write
place_high s pos = omega arith

pub cell_at-put_self : (s : Screen) (p v : ℕ) → p < 2000 → v < 65536 → cell_at (put s p v) p ≡ v
unfolding cell_at put_half write
cell_at-put_self s p v lt small = ground arith

pub cell_at-put_ne :
    (s : Screen) (p v q : ℕ) → p < 2000 → q ≢ p → cell_at (put s p v) q ≡ cell_at s q
unfolding cell_at put_half write
cell_at-put_ne s p v q lt ne = ground arith

pub put-outside :
    (s : Screen) (p v x : ℕ)
    → p < 2000
    → (x < text_buffer) ⊎ (text_buffer + 4000 ≤ x)
    → (put s p v).mem x ≡ s.mem x
unfolding put_half write
put-outside s p v x lt out = ground (arith, out)

pub set_cursor_pos_lem :
    (row col : ℕ) (s : Screen)
    → 80 * row + col < 2 ^ 31
    → set_cursor_pos row col s ≡ ok tt (place s ((80 * row + col) % 2000))
unfolding set_cursor_pos outportb
set_cursor_pos_lem row col s lt =
    rw
      (
        int_mul-pos 80 row s (omega (arith, lt)) (omega (arith, lt)),
        int_add-pos (80 * row) col s lt,
        int_rem-pos (80 * row + col) 2000 lt,
      )
      refl

pub get_cursor_pos_lem :
    (s : Screen)
    → s.registers 0x0f < 256
    → s.registers 0x0e < 256
    → get_cursor_pos s ≡ ok (cursor_of s) (record s { index = 0x0e })
unfolding get_cursor_pos outportb inportb cursor_of
get_cursor_pos_lem s low high =
    rw (or_below 8 (s.registers 0x0e) (s.registers 0x0f) low)
      (ap (λ (n : ℕ). ok n (record s { index = 0x0e })) (omega arith))

-- What a character is on the screen.
pub glyph :
    (color c : ℕ) → c < 128 → color < 256 → u16 (bit_or (color * 2 ^ 8) (widen c)) ≡ color * 256 + c
unfolding widen
glyph color c lt small =
    rw (ltb_of_lt {a = c} {b = 128} lt, or_above 8 color c (omega (arith, lt)))
      (omega (arith, lt, small))

pub display_char_lem :
    (c row col : ℕ) (s : Screen)
    → c < 128
    → s.color < 256
    → 80 * row + col < 2 ^ 30
    → display_char c row col s
      ≡ ok tt (place (put s (80 * row + col) (s.color * 256 + c)) ((80 * row + col + 1) % 2000))
unfolding display_char put_cell get_color
display_char_lem c row col s lt small fits =
    rw
      (
        int_mul-pos 80 row s (omega (arith, fits)) (omega (arith, fits)),
        int_add-pos (80 * row) col s (omega (arith, fits)),
        glyph s.color c lt small,
        int_add-pos col 1 (put s (80 * row + col) (s.color * 256 + c)) (omega (arith, fits)),
        int_div-pos (col + 1) 80 (omega (arith, fits)),
        int_rem-pos (col + 1) 80 (omega (arith, fits)),
        int_add-pos row ((col + 1) / 80) (put s (80 * row + col) (s.color * 256 + c))
            (omega (arith, fits)),
        set_cursor_pos_lem (row + (col + 1) / 80) ((col + 1) % 80)
            (put s (80 * row + col) (s.color * 256 + c)) (omega (arith, fits)),
      )
      (ap (λ (n : ℕ). ok tt (place (put s (80 * row + col) (s.color * 256 + c)) (n % 2000)))
        (omega arith))

-- At a cell of the screen.
pub display_char-cell :
    (c p : ℕ) (s : Screen)
    → c < 128
    → s.color < 256
    → p < 2000
    → display_char c (p / 80) (p % 80) s
      ≡ ok tt (place (put s p (s.color * 256 + c)) ((p + 1) % 2000))
display_char-cell c p s lt small inside =
    display_char_lem c (p / 80) (p % 80) s lt small (omega (arith, inside))
    ∙ ap (λ (n : ℕ). ok tt (place (put s n (s.color * 256 + c)) ((n + 1) % 2000))) (omega arith)
