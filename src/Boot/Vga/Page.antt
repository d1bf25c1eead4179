-- ===== src/Boot/Vga/Page.antt =====
-- The page of text that characters make, and the screens that display it.
use loof_os.Base.{
  ℕ, ◌+◌, ◌-◌, ◌*◌, ◌/◌, ◌%◌, ◌<◌, ◌≤◌, ◌≡◌, refl, sym, ◌∙◌, arith, ◌==◌, if◌then◌else◌, ◌||◌, ◌⊎◌,
  inl, inr, eq_or_ne,
}
use loof_os.Machine.{write, Run, ok}
use loof_os.Machine.Memory.{write_self, write_ne}
use loof_os.Boot.Vga.{Screen, text_buffer}
use loof_os.Boot.Vga.Cells.{
  cell_at, cursor_of, place, put, cursor_of-place, place_low, place_high, cell_at-put_self,
  cell_at-put_ne,
}

-- What the screen shows: its cells, each a colour and a character, and the cell of the cursor.
pub record Page : Type 0 where
  pub cells : ℕ → ℕ
  pub cursor : ℕ

-- A line feed keeps the column, and the last row's goes to the first; a carriage return goes to the
-- row's first cell; 8 and 127 clear the cell before; any other character is put in its cell.
abbrev pub type_char : (color c : ℕ) → Page → Page
type_char color c v =
    if c == b'\n'
    then record v { cursor = (v.cursor + 80) % 2000 }
    else (if c == b'\r'
        then record v { cursor = v.cursor / 80 * 80 }
        else (if (c == 8) || (c == 127)
            then record {
              cells = write v.cells (v.cursor - 1) (color * 256 + b' ');
              cursor = v.cursor - 1;
            }
            else record {
              cells = write v.cells v.cursor (color * 256 + c);
              cursor = (v.cursor + 1) % 2000;
            }))

pub record Displays (s : Screen) (v : Page) : Type 0 where
  pub cells : (p : ℕ) → p < 2000 → cell_at s p ≡ v.cells p
  pub cursor : cursor_of s ≡ v.cursor
  pub inside : v.cursor < 2000
  pub low : s.registers 0x0f < 256
  pub high : s.registers 0x0e < 256
  pub color_byte : s.color < 256

-- A command that gives the page and changes no other memory and not the colour.
pub record Typed (s : Screen) (v : Page) (m : Run Screen (Unit {0})) : Type 0 where
  pub after : Screen
  pub returns : m ≡ ok tt after
  pub displays : Displays after v
  pub same_color : after.color ≡ s.color
  pub outside : (x : ℕ) → (x < text_buffer) ⊎ (text_buffer + 4000 ≤ x) → after.mem x ≡ s.mem x

pub place-Displays :
    (s : Screen) (v : Page) (q : ℕ)
    → Displays s v
    → q < 2000
    → Displays (place s q) (record v { cursor = q })
unfolding cell_at
place-Displays s v q d lt = record {
  cells = d.cells;
  cursor = cursor_of-place s q (omega (arith, lt));
  inside = lt;
  low = place_low s q;
  high = place_high s q;
  color_byte = d.color_byte;
}

pub put-Displays :
    (s : Screen) (v : Page) (p x : ℕ)
    → Displays s v
    → p < 2000
    → x < 65536
    → Displays (put s p x) (record v { cells = write v.cells p x })
unfolding cursor_of
put-Displays s v p x d lt small = record {
  cells = λ q inside. elim (eq_or_ne q p) [
    | inl e ↦ rw (e, cell_at-put_self s p x lt small, write_self v.cells p x) refl
    | inr ne ↦ cell_at-put_ne s p x q lt ne ∙ d.cells q inside ∙ sym (write_ne v.cells p x q ne)
  ];
  cursor = d.cursor;
  inside = d.inside;
  low = d.low;
  high = d.high;
  color_byte = d.color_byte;
}
