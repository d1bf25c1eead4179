-- ===== src/Boot/Vga/Text.antt =====
-- Texts on the screen: `print` through `vga_output_char`.
use loof_os.Base.{
  ℕ, ◌%◌, ◌<◌, ◌≤◌, ◌≢◌, refl, sym, ap, subst, ◌∙◌, arith, List, [], ◌∷◌, ◌++◌, inl, inr, map,
}
use loof_os.Machine.{Cmd, Run, and_then}
use loof_os.Boot.Print.{print}
use loof_os.Boot.Print.Radix.{AllBelow, digit_char, out_all}
use loof_os.Boot.Print.Parts.{
  Part, literal, char, decimal, hex, binary, percent, other, AllParts, Shows, ShowsAll, format_of,
  args_of,
}
use loof_os.Boot.Print.Render.{print-Renders}
use loof_os.Boot.Vga.{Screen, vga_output_char}
use loof_os.Boot.Vga.Page.{Page, type_char, Displays, Typed}
use loof_os.Boot.Vga.Typing.{vga_output_char-Typed}

-- The characters one after the other.
abbrev pub type_text : (color : ℕ) → List ℕ → Page → Page
type_text color [] v = v
type_text color (c ∷ cs) v = type_text color cs (type_char color c v)

-- An ASCII character that does not go back.
abbrev pub IsForward : ℕ → Type 0
IsForward c = (c < 128) × (c ≢ 8) × (c ≢ 127)

abbrev pub AllForward : List ℕ → Type 0
AllForward [] = Unit {0}
AllForward (c ∷ cs) = IsForward c × AllForward cs

AllForward-append : (cs ds : List ℕ) → AllForward cs → AllForward ds → AllForward (cs ++ ds)
AllForward-append [] ds p q = q
AllForward-append (c ∷ cs) ds p q = (p.0, AllForward-append cs ds p.1 q)

digit_char-IsForward : (d : ℕ) → d < 16 → IsForward (digit_char d)
digit_char-IsForward d lt = (ground arith, ground arith, ground arith)

AllForward-digits : (b : ℕ) (ds : List ℕ) → b ≤ 16 → AllBelow b ds → AllForward (map digit_char ds)
AllForward-digits b [] le all = tt
AllForward-digits b (d ∷ ds) le all =
    (digit_char-IsForward d (omega (arith, all.0, le)), AllForward-digits b ds le all.1)

-- The characters that a format has itself, and those of its `%c`, are forward.
abbrev pub IsText : Part → Type 0
IsText (literal c) = IsForward c
IsText (char a) = IsForward (a % 256)
IsText (decimal w) = Unit {0}
IsText (hex w) = Unit {0}
IsText (binary w) = Unit {0}
IsText percent = Unit {0}
IsText (other d) = Unit {0}

abbrev pub AllText : List Part → Type 0
AllText [] = Unit {0}
AllText (p ∷ ps) = IsText p × AllText ps

Shows-AllForward : (p : Part) (text : List ℕ) → IsText p → Shows p text → AllForward text
Shows-AllForward (literal c) text valid e = subst AllForward (sym e) (valid, tt)
Shows-AllForward (char a) text valid e = subst AllForward (sym e) (valid, tt)
Shows-AllForward (decimal w) text valid (ds, inl (small, numeral, e)) =
    subst AllForward (sym e) (AllForward-digits 10 ds (omega arith) numeral.below)
Shows-AllForward (decimal w) text valid (ds, inr (large, numeral, e)) =
    subst AllForward (sym e)
      ((omega arith, omega arith, omega arith), AllForward-digits 10 ds (omega arith) numeral.below)
Shows-AllForward (hex w) text valid (ds, value, below, len, e) =
    subst AllForward (sym e) (AllForward-digits 16 ds (omega arith) below)
Shows-AllForward (binary w) text valid (ds, value, below, len, e) =
    subst AllForward (sym e) (AllForward-digits 2 ds (omega arith) below)
Shows-AllForward percent text valid e =
    subst AllForward (sym e) ((omega arith, omega arith, omega arith), tt)
Shows-AllForward (other d) text valid e = subst AllForward (sym e) tt

ShowsAll-AllForward :
    (ps : List Part) (text : List ℕ) → AllText ps → ShowsAll ps text → AllForward text
ShowsAll-AllForward [] text valid e = subst AllForward (sym e) tt
ShowsAll-AllForward (p ∷ ps) text valid (first, rest, shows, all, e) = subst AllForward (sym e) (
    AllForward-append first rest (Shows-AllForward p first valid.0 shows)
      (ShowsAll-AllForward ps rest valid.1 all))

module _ (load_char : ℕ → Cmd Screen ℕ) where
  out_all-Typed :
      (cs : List ℕ) (s : Screen) (v : Page)
      → Displays s v
      → AllForward cs
      → Typed s (type_text s.color cs v) (out_all vga_output_char load_char cs s)
  out_all-Typed [] s v d all = record {
    after = s;
    returns = refl;
    displays = d;
    same_color = refl;
    outside = λ x out. refl;
  }
  out_all-Typed (c ∷ cs) s v d all =
      let first = vga_output_char-Typed c s v d (all.0.0, inl (all.0.1, all.0.2)) in
      let rest = out_all-Typed cs first.after (type_char s.color c v) first.displays all.1 in
      record {
        after = rest.after;
        returns =
            ap
              (λ (r : Run Screen (Unit {0})).
                and_then r (λ _. out_all vga_output_char load_char cs))
              first.returns
            ∙ rest.returns;
        displays =
            subst (λ (color : ℕ). Displays rest.after (type_text color cs (type_char s.color c v)))
              first.same_color rest.displays;
        same_color = rest.same_color ∙ first.same_color;
        outside = λ x out. rest.outside x out ∙ first.outside x out;
      }

  -- `print` through `vga_output_char`, as stage 2 of the boot loader sets it up: from a screen
  -- that shows a page, formatted output returns a screen that shows the page with the texts of the
  -- format's parts typed in the screen's colour, where the format's own characters and those of
  -- its `%c` are ASCII and neither 8 nor 127, and its `%d` are between -10^9 and 10^9. The colour
  -- and the memory outside of the screen stay.
  pub print-Typed :
      (ps : List Part) (s : Screen) (v : Page)
      → AllParts ps
      → AllText ps
      → Displays s v
      → (text : List ℕ) × ShowsAll ps text
        × Typed s
            (type_text s.color text v)
            (print vga_output_char load_char (format_of ps) (args_of ps) s)
  print-Typed ps s v valid texts d =
      let rendered = print-Renders vga_output_char load_char ps valid in
      (
        rendered.0,
        rendered.1,
        subst (Typed s (type_text s.color rendered.0 v)) (sym (rendered.2 s))
            (out_all-Typed rendered.0 s v d (ShowsAll-AllForward ps rendered.0 texts rendered.1)),
      )
