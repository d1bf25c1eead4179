-- ===== src/Boot/Vga/Typing.antt =====
-- `vga_output_char` as an implementation of the page.
use loof_os.Base.{
  ℕ, ◌+◌, ◌-◌, ◌*◌, ◌/◌, ◌%◌, ◌^◌, ◌<◌, ◌≡◌, refl, ap, ◌∙◌, arith, ◌⊎◌, inl, inr, ◌≢◌, ==_of_ne,
  eq_or_ne, sub32-eq-sub,
}
use loof_os.Machine.{write, ok, ◌>>◌}
use loof_os.Machine.Ints.{int_div, int_rem, int_div-pos, int_rem-pos}
use loof_os.Boot.Vga.{Screen, display_char, vga_output_char, before, set_cursor_pos}
use loof_os.Boot.Vga.Cells.{
  place, put, put-outside, set_cursor_pos_lem, get_cursor_pos_lem, display_char-cell,
}
use loof_os.Boot.Vga.Page.{Page, type_char, Displays, Typed, place-Displays, put-Displays}

module _ (s : Screen) (v : Page) (d : Displays s v) where
  -- After the cursor was read.
  moved :
      (row col q : ℕ)
      → 80 * row + col < 2 ^ 31
      → (80 * row + col) % 2000 ≡ q
      → set_cursor_pos row col (record s { index = 0x0e }) ≡ ok tt (place s q)
  moved row col q lt e =
      set_cursor_pos_lem row col (record s { index = 0x0e }) lt
      ∙ ap (λ (n : ℕ). ok tt (place s n)) e

  line_feed : Typed s (type_char s.color b'\n' v) (vga_output_char b'\n' s)
  unfolding vga_output_char
  line_feed = record {
    after = place s ((v.cursor + 80) % 2000);
    returns =
        rw (get_cursor_pos_lem s d.low d.high, d.cursor)
          (moved (v.cursor / 80 + 1) (v.cursor % 80) ((v.cursor + 80) % 2000)
            (omega (arith, d.inside)) (omega arith));
    displays = place-Displays s v ((v.cursor + 80) % 2000) d (omega arith);
    same_color = refl;
    outside = λ x out. refl;
  }

  carriage_return : Typed s (type_char s.color b'\r' v) (vga_output_char b'\r' s)
  unfolding vga_output_char
  carriage_return = record {
    after = place s (v.cursor / 80 * 80);
    returns =
        rw (get_cursor_pos_lem s d.low d.high, d.cursor)
          (moved (v.cursor / 80) 0 (v.cursor / 80 * 80) (omega (arith, d.inside))
            (omega (arith, d.inside)));
    displays = place-Displays s v (v.cursor / 80 * 80) d (omega (arith, d.inside));
    same_color = refl;
    outside = λ x out. refl;
  }

  -- The cell before the cursor, cleared.
  cleared : Page
  cleared = record {
    cells = write v.cells (v.cursor - 1) (s.color * 256 + b' ');
    cursor = v.cursor - 1;
  }

  erased :
      0 < v.cursor
      → Typed s cleared (
          (display_char b' ' (int_div (before v.cursor) 80) (int_rem (before v.cursor) 80)
              >> set_cursor_pos (int_div (before v.cursor) 80) (int_rem (before v.cursor) 80))
            (record s { index = 0x0e }))
  unfolding before cleared
  erased pos =
      let p = v.cursor - 1 in
      let blanked = put s p (s.color * 256 + b' ') in
      record {
        after = place (place blanked ((p + 1) % 2000)) p;
        returns =
            rw
              (
                sub32-eq-sub v.cursor 1 pos (omega (arith, d.inside)),
                int_div-pos p 80 (omega (arith, d.inside)),
                int_rem-pos p 80 (omega (arith, d.inside)),
                display_char-cell b' ' p (record s { index = 0x0e }) (omega arith) d.color_byte
                    (omega (arith, d.inside)),
              )
              (set_cursor_pos_lem (p / 80) (p % 80) (place blanked ((p + 1) % 2000))
                  (omega (arith, d.inside))
                ∙ ap (λ (n : ℕ). ok tt (place (place blanked ((p + 1) % 2000)) n))
                    (omega (arith, d.inside)));
        displays =
            place-Displays (place blanked ((p + 1) % 2000))
              (record { cells = write v.cells p (s.color * 256 + b' '); cursor = (p + 1) % 2000 }) p
              (place-Displays blanked (record v { cells = write v.cells p (s.color * 256 + b' ') })
                ((p + 1) % 2000)
                (put-Displays s v p (s.color * 256 + b' ') d (omega (arith, d.inside))
                  (omega (arith, d.color_byte)))
                (omega arith))
              (omega (arith, d.inside));
        same_color = refl;
        outside = λ x out. put-outside s p (s.color * 256 + b' ') x (omega (arith, d.inside)) out;
      }

  backspace :
      (c : ℕ)
      → (c ≡ 8) ⊎ (c ≡ 127)
      → 0 < v.cursor
      → Typed s (type_char s.color c v) (vga_output_char c s)
  unfolding vga_output_char cleared
  backspace c (inl e) pos = rw (e, get_cursor_pos_lem s d.low d.high, d.cursor) (erased pos)
  backspace c (inr e) pos = rw (e, get_cursor_pos_lem s d.low d.high, d.cursor) (erased pos)

  shown-Displays :
      (c : ℕ)
      → c < 128
      → c ≢ 8
      → c ≢ 127
      → c ≢ b'\n'
      → c ≢ b'\r'
      → Displays
          (place (put s v.cursor (s.color * 256 + c)) ((v.cursor + 1) % 2000))
          (type_char s.color c v)
  shown-Displays c lt n8 n127 nl nr =
      rw (==_of_ne c 8 n8, ==_of_ne c 127 n127, ==_of_ne c 10 nl, ==_of_ne c 13 nr)
        (place-Displays (put s v.cursor (s.color * 256 + c))
          (record v { cells = write v.cells v.cursor (s.color * 256 + c) }) ((v.cursor + 1) % 2000)
          (put-Displays s v v.cursor (s.color * 256 + c) d d.inside
            (omega (arith, lt, d.color_byte)))
          (omega arith))

  shown :
      (c : ℕ)
      → c < 128
      → c ≢ 8
      → c ≢ 127
      → c ≢ b'\n'
      → c ≢ b'\r'
      → Typed s (type_char s.color c v) (vga_output_char c s)
  unfolding vga_output_char
  shown c lt n8 n127 nl nr = record {
    after = place (put s v.cursor (s.color * 256 + c)) ((v.cursor + 1) % 2000);
    returns =
        rw
          (
            get_cursor_pos_lem s d.low d.high,
            d.cursor,
            ==_of_ne c 8 n8,
            ==_of_ne c 127 n127,
            ==_of_ne c 10 nl,
            ==_of_ne c 13 nr,
          )
          (display_char-cell c v.cursor (record s { index = 0x0e }) lt d.color_byte d.inside);
    displays = shown-Displays c lt n8 n127 nl nr;
    same_color = refl;
    outside = λ x out. put-outside s v.cursor (s.color * 256 + c) x d.inside out;
  }

  -- Without the output function.
  pub display_char-Typed :
      (c : ℕ)
      → c < 128
      → c ≢ 8
      → c ≢ 127
      → c ≢ b'\n'
      → c ≢ b'\r'
      → Typed s (type_char s.color c v) (display_char c (v.cursor / 80) (v.cursor % 80) s)
  display_char-Typed c lt n8 n127 nl nr = record {
    after = place (put s v.cursor (s.color * 256 + c)) ((v.cursor + 1) % 2000);
    returns = display_char-cell c v.cursor s lt d.color_byte d.inside;
    displays = shown-Displays c lt n8 n127 nl nr;
    same_color = refl;
    outside = λ x out. put-outside s v.cursor (s.color * 256 + c) x d.inside out;
  }

  -- The cursor is in the next cell, of the page's end in the first.
  pub type_char-cursor :
      (c : ℕ)
      → c ≢ 8
      → c ≢ 127
      → c ≢ b'\n'
      → c ≢ b'\r'
      → (type_char s.color c v).cursor ≡ (v.cursor + 1) % 2000
  type_char-cursor c n8 n127 nl nr =
      rw (==_of_ne c 8 n8, ==_of_ne c 127 n127, ==_of_ne c 10 nl, ==_of_ne c 13 nr) refl

-- A character that is ASCII and, at the page's first cell, does not go back.
abbrev pub CanType : ℕ → Page → Type 0
CanType c v = (c < 128) × (((c ≢ 8) × (c ≢ 127)) ⊎ (0 < v.cursor))

-- `vga_output_char` implements the page: with an ASCII character other than a backspace at the
-- first cell, from a screen that shows a page it returns a screen that shows the page with the
-- character typed in the screen's colour, at the end of the page as on its inside. The colour and
-- the memory outside of the screen's 4000 bytes stay.
pub vga_output_char-Typed :
    (c : ℕ) (s : Screen) (v : Page)
    → Displays s v
    → CanType c v
    → Typed s (type_char s.color c v) (vga_output_char c s)
vga_output_char-Typed c s v d (lt, allowed) = elim (eq_or_ne c b'\n') [
  | inl e ↦ rw e (line_feed s v d)
  | inr nl ↦ elim (eq_or_ne c b'\r') [
    | inl e ↦ rw e (carriage_return s v d)
    | inr nr ↦ elim (eq_or_ne c 8) [
      | inl e ↦ backspace s v d c (inl e) (ground (arith, allowed))
      | inr n8 ↦ elim (eq_or_ne c 127) [
        | inl e ↦ backspace s v d c (inr e) (ground (arith, allowed))
        | inr n127 ↦ shown s v d c lt n8 n127 nl nr
      ]
    ]
  ]
]
