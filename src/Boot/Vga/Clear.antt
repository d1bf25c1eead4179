-- ===== src/Boot/Vga/Clear.antt =====
-- Clearing the screen, strings at a place of it, and what leaves it.
use loof_os.Base.{
  ℕ, zero, suc, ◌+◌, ◌-◌, ◌*◌, ◌/◌, ◌%◌, ◌^◌, ◌<◌, ◌≤◌, ◌≡◌, ◌≢◌, refl, sym, ap, subst, ◌∙◌, arith,
  List, [], ◌∷◌, ◌⊎◌, inl, inr, eq_or_ne, length,
}
use loof_os.Machine.{Mem, write, Run, ok}
use loof_os.Machine.Ints.{int_div, int_rem, int_add, int_mul, int_div-pos, int_rem-pos, int_add-pos}
use loof_os.Boot.Vga.{
  Screen, text_buffer, display_char, display_string, clear_loop, reset_display, set_cursor_pos,
  vga_output_char, before, put_cell, get_color, outportb, put_half,
}
use loof_os.Boot.Vga.Cells.{
  cell_at, cell_at-place, place_low, place_high, cursor_of, place, put, cell_at-put_self,
  cell_at-put_ne, put-outside, set_cursor_pos_lem, get_cursor_pos_lem, display_char-cell,
  cursor_of-place, glyph,
}
use loof_os.Boot.Vga.Page.{Page, type_char, Displays, Typed}
use loof_os.Boot.Vga.Typing.{display_char-Typed, type_char-cursor}
use loof_os.Boot.Vga.Text.{type_text}

-- The cells from the first to the one before `i` are blank.
record Blank (s : Screen) (i color : ℕ) (m : Run Screen (Unit {0})) : Type 0 where
  after : Screen
  returns : m ≡ ok tt after
  cells : (q : ℕ) → q < i → cell_at after q ≡ color * 256 + b' '
  same_color : after.color ≡ s.color
  outside : (x : ℕ) → (x < text_buffer) ⊎ (text_buffer + 4000 ≤ x) → after.mem x ≡ s.mem x

clear_loop-Blank :
    (left i : ℕ) (s : Screen)
    → i + left ≡ 2000
    → s.color < 256
    → ((q : ℕ) → q < i → cell_at s q ≡ s.color * 256 + b' ')
    → Blank s 2000 s.color (clear_loop left i s)
unfolding clear_loop
clear_loop-Blank zero i s total small blank = record {
  after = s;
  returns = refl;
  cells = λ q lt. blank q (omega (arith, total, lt));
  same_color = refl;
  outside = λ x out. refl;
}
clear_loop-Blank (suc left) i s total small blank =
    let next = place (put s i (s.color * 256 + b' ')) ((i + 1) % 2000) in
    let rest = clear_loop-Blank left (i + 1) next (omega (arith, total)) small (λ q lt.
      elim (eq_or_ne q i) [
        | inl e ↦
            cell_at-place (put s i (s.color * 256 + b' ')) ((i + 1) % 2000) q
            ∙ rw e (
                cell_at-put_self s i (s.color * 256 + b' ') (omega (arith, total))
                  (omega (arith, small)))
        | inr ne ↦
            cell_at-place (put s i (s.color * 256 + b' ')) ((i + 1) % 2000) q
            ∙ cell_at-put_ne s i (s.color * 256 + b' ') q (omega (arith, total)) ne
            ∙ blank q (omega (arith, lt, ne))
      ]) in
    record {
      after = rest.after;
      returns =
          rw
            (
              int_div-pos i 80 (omega (arith, total)),
              int_rem-pos i 80 (omega (arith, total)),
              display_char-cell b' ' i s (omega arith) small (omega (arith, total)),
            )
            rest.returns;
      cells = rest.cells;
      same_color = rest.same_color;
      outside = λ x out.
          rest.outside x out ∙ put-outside s i (s.color * 256 + b' ') x (omega (arith, total)) out;
    }

-- Whatever the screen, its cursor and the controller's registers held, `reset_display` leaves all
-- 2000 cells blank in the current colour and the cursor in the first cell. The colour and the
-- memory outside of the screen stay.
pub reset_display-Typed :
    (s : Screen)
    → s.color < 256
    → Typed s (record { cells = λ _. s.color * 256 + b' '; cursor = 0 }) (reset_display s)
unfolding reset_display
reset_display-Typed s small =
    let c = clear_loop-Blank 2000 0 s refl small (λ q lt. absurd (omega (arith, lt))) in
    record {
      after = place c.after 0;
      returns = rw c.returns (set_cursor_pos_lem 0 0 c.after (omega arith));
      displays = record {
        cells = λ p inside. cell_at-place c.after 0 p ∙ c.cells p inside;
        cursor = cursor_of-place c.after 0 (omega arith);
        inside = omega arith;
        low = place_low c.after 0;
        high = place_high c.after 0;
        color_byte = omega (arith, c.same_color, small);
      };
      same_color = c.same_color;
      outside = c.outside;
    }

-- A character that has no effect but to be shown.
abbrev pub IsGraphic : ℕ → Type 0
IsGraphic c = (c < 128) × (c ≢ 8) × (c ≢ 127) × (c ≢ b'\n') × (c ≢ b'\r')

abbrev pub AllGraphic : List ℕ → Type 0
AllGraphic [] = Unit {0}
AllGraphic (c ∷ cs) = IsGraphic c × AllGraphic cs

-- The cell after `p`, by row and column.
next_row : (p : ℕ) → p / 80 + (p % 80 + 1) / 80 ≡ (p + 1) / 80
next_row p = omega arith

next_col : (p : ℕ) → (p % 80 + 1) % 80 ≡ (p + 1) % 80
next_col p = omega arith

-- `display_string` from the cursor's cell is the same as typing the string's characters, where all
-- of them are graphic and the string ends on the page. The colour and the memory outside of the
-- screen stay.
pub display_string-Typed :
    (str : List ℕ) (s : Screen) (v : Page)
    → Displays s v
    → AllGraphic str
    → v.cursor + length str ≤ 2000
    → Typed s (type_text s.color str v) (display_string str (v.cursor / 80) (v.cursor % 80) s)
unfolding display_string
display_string-Typed [] s v d all fits = record {
  after = s;
  returns = refl;
  displays = d;
  same_color = refl;
  outside = λ x out. refl;
}
display_string-Typed (c ∷ []) s v d ((lt, n8, n127, nl, nr), all) fits =
    let t = display_char-Typed s v d c lt n8 n127 nl nr in
    record {
      after = t.after;
      returns =
          rw
            (
              t.returns,
              int_add-pos (v.cursor % 80) 1 t.after (omega arith),
              int_div-pos (v.cursor % 80 + 1) 80 (omega arith),
              int_add-pos (v.cursor / 80) ((v.cursor % 80 + 1) / 80) t.after (omega (arith, fits)),
            )
            refl;
      displays = t.displays;
      same_color = t.same_color;
      outside = t.outside;
    }
display_string-Typed (c ∷ b ∷ str) s v d ((lt, n8, n127, nl, nr), all) fits =
    let t = display_char-Typed s v d c lt n8 n127 nl nr in
    let next = type_char s.color c v in
    let moved : next.cursor ≡ v.cursor + 1 =
      omega (arith, type_char-cursor s v d c n8 n127 nl nr, fits) in
    let rest =
      display_string-Typed (b ∷ str) t.after next t.displays all (omega (arith, moved, fits)) in
    record {
      after = rest.after;
      returns =
          rw
            (
              t.returns,
              int_add-pos (v.cursor % 80) 1 t.after (omega arith),
              int_div-pos (v.cursor % 80 + 1) 80 (omega arith),
              int_rem-pos (v.cursor % 80 + 1) 80 (omega arith),
              int_add-pos (v.cursor / 80) ((v.cursor % 80 + 1) / 80) t.after (omega (arith, fits)),
              next_row v.cursor,
              next_col v.cursor,
            )
            (ap (λ (p : ℕ). display_string (b ∷ str) (p / 80) (p % 80) t.after) (sym moved)
              ∙ rest.returns);
      displays =
          subst (λ (color : ℕ). Displays rest.after (type_text color (b ∷ str) next)) t.same_color
            rest.displays;
      same_color = rest.same_color ∙ t.same_color;
      outside = λ x out. rest.outside x out ∙ t.outside x out;
    }

-- What a backspace at the first cell does.
pub record Escapes (s : Screen) (m : Run Screen (Unit {0})) : Type 0 where
  pub after : Screen
  pub returns : m ≡ ok tt after
  pub character : after.mem (text_buffer - 2) ≡ b' '
  pub colour : after.mem (text_buffer - 1) ≡ s.color
  pub cursor : cursor_of after ≡ 0xffff

module _ (h : Mem) (color : ℕ) (small : color < 256) where
  before_low : put_half h (text_buffer - 2) (color * 256 + b' ') (text_buffer - 2) ≡ b' '
  unfolding put_half write
  before_low = omega arith

  before_high : put_half h (text_buffer - 2) (color * 256 + b' ') (text_buffer - 1) ≡ color
  unfolding put_half write
  before_high = omega (arith, small)

cursor_outside : (s : Screen) → cursor_of (place s (2 ^ 32 - 1)) ≡ 0xffff
unfolding cursor_of write
cursor_outside s = refl

-- A backspace with the cursor in the first cell writes a blank to the two bytes before the screen
-- and leaves the cursor at 0xffff, which is no cell.
pub vga_output_char-Escapes :
    (s : Screen) (v : Page) → Displays s v → v.cursor ≡ 0 → Escapes s (vga_output_char 8 s)
unfolding vga_output_char before display_char int_div int_rem int_add int_mul put_cell get_color
    set_cursor_pos outportb
vga_output_char-Escapes s v d first =
    let written =
      place (record s { mem = put_half s.mem (text_buffer - 2) (s.color * 256 + b' ') }) 0 in
    record {
      after = place written (2 ^ 32 - 1);
      returns =
          rw
            (
              get_cursor_pos_lem s d.low d.high,
              d.cursor,
              first,
              glyph s.color b' ' (omega arith) d.color_byte,
            )
            refl;
      character = before_low s.mem s.color d.color_byte;
      colour = before_high s.mem s.color d.color_byte;
      cursor = cursor_outside written;
    }
