-- ===== src/Boot/Vga.antt =====
-- boot/x86/vesa/vga.c: the text screen of 25 rows of 80 cells at 0xb8000. A `char` is a byte, an
-- `int` a 32-bit pattern, and a port write goes to the CRT controller.
pub mod Cells
pub mod Page
pub mod Typing
pub mod Text
pub mod Clear
mod Examples
use loof_os.Base.{
  ℕ, zero, suc, ◌+◌, ◌-◌, ◌*◌, ◌/◌, ◌%◌, ◌^◌, bit_or, Bool, true, false, List, [], ◌∷◌, ltb, ◌==◌,
  if◌then◌else◌, add32, sub32, u8, u16, u32, ◌||◌,
}
use loof_os.Machine.{Mem, write, Cmd, Run, ok, undefined, pure, ◌>>=◌, ◌>>◌}
use loof_os.Machine.Ints.{int_add, int_mul, int_div, int_rem, int_of, negative}

-- The memory, the colour of the text, and the CRT controller: the register that its index port has
-- selected, and what its registers hold.
pub record Screen : Type 0 where
  pub mem : Mem
  pub color : ℕ
  pub index : ℕ
  pub registers : ℕ → ℕ

abbrev pub vga_text_index : ℕ
vga_text_index = 0x3d4

abbrev pub vga_text_data : ℕ
vga_text_data = 0x3d5

abbrev pub text_buffer : ℕ
text_buffer = 0xb8000

unfoldable pub outportb : ℕ → ℕ → Cmd Screen (Unit {0})
outportb port v s =
    if port == vga_text_index
    then ok tt (record s { index = v })
    else (if port == vga_text_data
        then ok tt (record s { registers = write s.registers s.index v })
        else ok tt s)

unfoldable pub inportb : ℕ → Cmd Screen ℕ
inportb port s = if port == vga_text_data then ok (s.registers s.index) s else ok 0 s

-- A `uint16_t` in memory, low byte first.
unfoldable pub put_half : Mem → ℕ → ℕ → Mem
put_half h a v = write (write h a (v % 256)) (u32 (a + 1)) (v / 256 % 256)

-- `(uint16_t)c`, of a signed `char`.
unfoldable pub widen : ℕ → ℕ
widen c = if ltb c 128 then c else c + 0xff00

unfoldable pub set_cursor_pos : (row col : ℕ) → Cmd Screen (Unit {0})
set_cursor_pos row col = do
  start ← int_mul 80 row
  sum ← int_add start col
  let pos = int_rem sum 2000
  outportb vga_text_index 0x0f
  outportb vga_text_data (pos % 256)
  outportb vga_text_index 0x0e
  outportb vga_text_data (pos / 256 % 256)

-- `text_buffer[i] = v`, the index an `int`.
unfoldable pub put_cell : (i v : ℕ) → Cmd Screen (Unit {0})
put_cell i v s = ok tt (record s { mem = put_half s.mem (u32 (text_buffer + 2 * i)) v })

unfoldable pub get_color : Cmd Screen ℕ
get_color s = ok s.color s

unfoldable pub display_char : (c row col : ℕ) → Cmd Screen (Unit {0})
display_char c row col = do
  start ← int_mul 80 row
  i ← int_add start col
  color ← get_color
  put_cell i (u16 (bit_or (color * 2 ^ 8) (widen c)))
  col' ← int_add col 1
  row' ← int_add row (int_div col' 80)
  set_cursor_pos row' (int_rem col' 80)

-- The string is the list of its characters up to the 0.
unfoldable pub display_string : (str : List ℕ) → (row col : ℕ) → Cmd Screen (Unit {0})
display_string [] row col = pure tt
display_string (c ∷ str) row col = do
  display_char c row col
  col' ← int_add col 1
  row' ← int_add row (int_div col' 80)
  display_string str row' (int_rem col' 80)

-- `for (int i = 0; i < 2000; i++)`
unfoldable pub clear_loop : (left i : ℕ) → Cmd Screen (Unit {0})
clear_loop zero i = pure tt
clear_loop (suc left) i = do
  display_char b' ' (int_div i 80) (int_rem i 80)
  clear_loop left (i + 1)

unfoldable pub reset_display : Cmd Screen (Unit {0})
reset_display = do clear_loop 2000 0; set_cursor_pos 0 0

-- A shift of a sign or past the sign is undefined.
unfoldable pub set_color : (b f : ℕ) → Cmd Screen (Unit {0})
set_color b f s =
    if ltb (b * 2 ^ 4) (2 ^ 31)
    then ok tt (record s { color = u8 (bit_or (b * 2 ^ 4) f) })
    else undefined

unfoldable pub enable_cursor : (start end : ℕ) → Cmd Screen (Unit {0})
enable_cursor start end = do
  outportb vga_text_index 0x0a
  outportb vga_text_data (bit_or (0 * 2 ^ 5) start)
  outportb vga_text_index 0x0b
  outportb vga_text_data (bit_or (0 * 2 ^ 5) end)

unfoldable pub disable_cursor : Cmd Screen (Unit {0})
disable_cursor = do outportb vga_text_index 0x0a; outportb vga_text_data 0x20

unfoldable pub get_cursor_pos : Cmd Screen ℕ
get_cursor_pos = do
  outportb vga_text_index 0x0f
  low ← inportb vga_text_data
  outportb vga_text_index 0x0e
  high ← inportb vga_text_data
  pure (u16 (bit_or low (high * 2 ^ 8)))

-- `cur_pos - 1`, of a `uint16_t`: an `int`, and -1 at 0.
unfoldable pub before : ℕ → ℕ
before cur_pos = sub32 cur_pos 1

unfoldable pub vga_output_char : ℕ → Cmd Screen (Unit {0})
vga_output_char c = do
  cur_pos ← get_cursor_pos
  if c == b'\n'
      then set_cursor_pos (cur_pos / 80 + 1) (cur_pos % 80)
      else (if c == b'\r'
          then set_cursor_pos (cur_pos / 80) 0
          else (if (c == 8) || (c == 127)
              then (do
                display_char b' ' (int_div (before cur_pos) 80) (int_rem (before cur_pos) 80)
                set_cursor_pos (int_div (before cur_pos) 80) (int_rem (before cur_pos) 80))
              else display_char c (cur_pos / 80) (cur_pos % 80)))
