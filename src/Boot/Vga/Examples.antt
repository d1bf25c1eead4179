-- ===== src/Boot/Vga/Examples.antt =====
-- The theorems on the text screen at one that nothing was written to.
use loof_os.Base.{ℕ, ◌+◌, ◌*◌, ◌≡◌, refl, arith, List, [], ◌∷◌, inl}
use loof_os.Machine.{Cmd, Run, ok, undefined, ◌>>◌}
use loof_os.Machine.Ints.{int_div, int_rem, int_add, int_mul}
use loof_os.Boot.Print.Parts.{Part, literal, hex, decimal, ShowsAll, format_of, args_of}
use loof_os.Boot.Print.{print}
use loof_os.Boot.Vga.{
  Screen, display_char, display_string, reset_display, vga_output_char, widen, put_cell, get_color,
  set_cursor_pos, outportb, put_half,
}
use loof_os.Boot.Vga.Cells.{cell_at}
use loof_os.Boot.Vga.Page.{Page, type_char, Displays, Typed}
use loof_os.Boot.Vga.Typing.{vga_output_char-Typed}
use loof_os.Boot.Vga.Text.{type_text, print-Typed}
use loof_os.Boot.Vga.Clear.{
  reset_display-Typed, display_string-Typed, Escapes, vga_output_char-Escapes,
}

abbrev dark : Screen
dark = record { mem = λ a. 0; color = 0x0f; index = 0; registers = λ r. 0 }

abbrev empty_page : Page
empty_page = record { cells = λ p. 0; cursor = 0 }

dark-Displays : Displays dark empty_page
unfolding cell_at loof_os.Boot.Vga.Cells.cursor_of
dark-Displays = record {
  cells = λ p inside. refl;
  cursor = refl;
  inside = omega arith;
  low = omega arith;
  high = omega arith;
  color_byte = omega arith;
}

vga_output_char-Typed_example :
    Typed dark (type_char 15 b'A' empty_page) (vga_output_char b'A' dark)
vga_output_char-Typed_example =
    vga_output_char-Typed b'A' dark empty_page dark-Displays
      (omega arith, inl (omega arith, omega arith))

-- `Size: %x`
abbrev size_parts : List Part
size_parts = literal b':' ∷ hex 0x12_3000 ∷ literal b'\n' ∷ decimal 12 ∷ []

no_char : ℕ → Cmd Screen ℕ
no_char a s = undefined

print-Typed_example :
    (text : List ℕ) × ShowsAll size_parts text
    × Typed dark
        (type_text 15 text empty_page)
        (print vga_output_char no_char (format_of size_parts) (args_of size_parts) dark)
print-Typed_example =
    print-Typed no_char size_parts dark empty_page
      (omega arith, (omega arith, (omega arith, (inl (omega arith), tt))))
      (
        (omega arith, omega arith, omega arith),
        (tt, ((omega arith, omega arith, omega arith), (tt, tt))),
      )
      dark-Displays

reset_display-Typed_example :
    Typed dark (record { cells = λ p. 15 * 256 + b' '; cursor = 0 }) (reset_display dark)
reset_display-Typed_example = reset_display-Typed dark (omega arith)

display_string-Typed_example :
    Typed dark
      (type_text 15 (b'O' ∷ b'K' ∷ []) empty_page)
      (display_string (b'O' ∷ b'K' ∷ []) 0 0 dark)
display_string-Typed_example =
    display_string-Typed (b'O' ∷ b'K' ∷ []) dark empty_page dark-Displays
      (
        (omega arith, omega arith, omega arith, omega arith, omega arith),
        ((omega arith, omega arith, omega arith, omega arith, omega arith), tt),
      )
      (omega arith)

vga_output_char-Escapes_example : Escapes dark (vga_output_char 8 dark)
vga_output_char-Escapes_example = vga_output_char-Escapes dark empty_page dark-Displays refl

-- The sign of a `char` above 127 replaces the colour.
signed_char_test :
    (s : Screen) × (display_char 200 0 0 dark ≡ ok tt s) × (cell_at s 0 ≡ 0xff00 + 200)
unfolding display_char widen put_cell get_color set_cursor_pos outportb put_half int_div int_rem
    int_add int_mul cell_at loof_os.Machine.write
signed_char_test = (_, refl, refl)
