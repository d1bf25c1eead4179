-- ===== src/Boot/Stage2/Messages.antt =====
-- Texts on the boot loader's screen.
use loof_os.Base.{
  ℕ, ◌+◌, ◌<◌, ◌≤◌, ◌≡◌, ◌≢◌, ◌⊎◌, refl, ap, ap₂, subst, ◌∙◌, arith, List, [], ◌∷◌, ◌++◌, map, Bool,
  true, false, ltb, ◌==◌, if◌then◌else◌,
}
use loof_os.Machine.{Cmd, Run, ok}
use loof_os.Boot.Print.{print}
use loof_os.Boot.Print.Parts.{literal, AllParts, ShowsAll, format_of, args_of}
use loof_os.Boot.Vga.{Screen, text_buffer, vga_output_char}
use loof_os.Boot.Vga.Page.{Page, Displays, Typed}
use loof_os.Boot.Vga.Text.{type_text, AllText, print-Typed}
use loof_os.Boot.Stage2.{Loader, screen_of, from_screen, on_screen, load_char}

-- ASCII without `%`, 8 and 127.
abbrev pub is_plain : List ℕ → Bool
is_plain [] = true
is_plain (c ∷ text) =
    if ltb c 128
    then (if c == b'%'
        then false
        else (if c == 8 then false else (if c == 127 then false else is_plain text)))
    else false

plain_head :
    (c : ℕ) (text : List ℕ)
    → is_plain (c ∷ text) ≡ true
    → (c < 128) × (c ≢ b'%') × (c ≢ 8) × (c ≢ 127) × (is_plain text ≡ true)
plain_head c text h =
    (ground (arith, h), ground (arith, h), ground (arith, h), ground (arith, h), ground (arith, h))

-- A text is a format with no substitution.
format_of-map : (text : List ℕ) → format_of (map literal text) ≡ text
format_of-map [] = refl
format_of-map (c ∷ text) = ap (λ (t : List ℕ). c ∷ t) (format_of-map text)

args_of-map : (text : List ℕ) → args_of (map literal text) ≡ []
args_of-map [] = refl
args_of-map (c ∷ text) = args_of-map text

ShowsAll-map : (text shown : List ℕ) → ShowsAll (map literal text) shown → shown ≡ text
ShowsAll-map [] shown e = e
ShowsAll-map (c ∷ text) shown (first, rest, one, all, e) =
    e ∙ ap₂ (λ (a b : List ℕ). a ++ b) one (ShowsAll-map text rest all)

plain-AllParts : (text : List ℕ) → is_plain text ≡ true → AllParts (map literal text)
plain-AllParts [] h = tt
plain-AllParts (c ∷ text) h = let p = plain_head c text h in (p.1, plain-AllParts text p.4)

plain-AllText : (text : List ℕ) → is_plain text ≡ true → AllText (map literal text)
plain-AllText [] h = tt
plain-AllText (c ∷ text) h =
    let p = plain_head c text h in ((p.0, p.2, p.3), plain-AllText text p.4)

print-plain :
    (text : List ℕ) (s : Screen) (v : Page)
    → is_plain text ≡ true
    → Displays s v
    → Typed s (type_text s.color text v) (print vga_output_char load_char text [] s)
print-plain text s v plain d =
    let p =
      print-Typed load_char (map literal text) s v (plain-AllParts text plain)
        (plain-AllText text plain) d in
    subst
      (λ (t : List ℕ). Typed s (type_text s.color t v) (print vga_output_char load_char text [] s))
      (ShowsAll-map text p.0 p.1)
      (subst (Typed s (type_text s.color p.0 v))
        (ap₂ (λ (f a : List ℕ). print vga_output_char load_char f a s) (format_of-map text)
          (args_of-map text))
        p.2)

-- The loader's screen shows a page, and only the screen has changed.
pub record Says (l : Loader) (v : Page) (m : Run Loader (Unit {0})) : Type 0 where
  pub after : Loader
  pub returns : m ≡ ok tt after
  pub shows : Displays (screen_of after) v
  pub same_color : after.color ≡ l.color
  pub same_cr3 : after.cr3 ≡ l.cr3
  pub same_record : after.boot_record ≡ l.boot_record
  pub same_table : after.upcase_table ≡ l.upcase_table
  pub outside : (x : ℕ) → (x < text_buffer) ⊎ (text_buffer + 4000 ≤ x) → after.mem x ≡ l.mem x

pub on_screen-Says :
    (l : Loader) (v : Page) (m : Cmd Screen (Unit {0}))
    → Typed (screen_of l) v (m (screen_of l))
    → Says l v (on_screen m l)
on_screen-Says l v m t = record {
  after = record l {
    mem = t.after.mem;
    color = t.after.color;
    index = t.after.index;
    registers = t.after.registers;
  };
  returns = ap (from_screen l) t.returns;
  shows = t.displays;
  same_color = t.same_color;
  same_cr3 = refl;
  same_record = refl;
  same_table = refl;
  outside = t.outside;
}

pub say-Says :
    (text : List ℕ) (l : Loader) (v : Page)
    → is_plain text ≡ true
    → Displays (screen_of l) v
    → Says l (type_text l.color text v) (on_screen (print vga_output_char load_char text []) l)
say-Says text l v plain d =
    on_screen-Says l (type_text l.color text v) (print vga_output_char load_char text [])
      (print-plain text (screen_of l) v plain d)
