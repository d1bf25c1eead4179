-- ===== src/Boot/Stage2/Missing.antt =====
-- Stage 2 without a kernel.
use loof_os.Base.{
  sym, true, ℕ, ◌+◌, ◌*◌, ◌<◌, ◌≤◌, ◌≡◌, refl, ap, subst, ◌∙◌, arith, List, [], ◌==◌, if◌then◌else◌,
}
use loof_os.Machine.{Mem, Cmd, Run, ok, pure, and_then, ◌>>◌}
use loof_os.Boot.Vga.{
  vga_output_char, Screen, text_buffer, set_cursor_pos, set_color, reset_display,
}
use loof_os.Boot.Vga.Cells.{cell_at, cursor_of, place, set_cursor_pos_lem}
use loof_os.Boot.Vga.Page.{Page, Displays, Typed, place-Displays}
use loof_os.Boot.Vga.Clear.{reset_display-Typed}
use loof_os.Boot.Vga.Text.{type_text}
use loof_os.Boot.Exfat.{Volume}
use loof_os.Boot.Print.{print}
use loof_os.Boot.Stage2.{
  load_char, Loader, screen_of, volume_of, from_volume, on_screen, say, chars, Ends, no_kernel,
  start_screen, enter_kernel, load_kernel, stage2,
}
use loof_os.Boot.Stage2.Messages.{is_plain, Says, on_screen-Says, say-Says}

-- A screen with the same cells, cursor registers and some colour shows the same.
same-Displays :
    (s s' : Screen) (v : Page)
    → ((x : ℕ) → text_buffer ≤ x → x < text_buffer + 4000 → s'.mem x ≡ s.mem x)
    → s'.registers ≡ s.registers
    → s'.color < 256
    → Displays s v
    → Displays s' v
unfolding cell_at cursor_of
same-Displays s s' v mem registers color d = record {
  cells = λ p inside.
      rw
        (
          mem (text_buffer + 2 * p) (omega arith) (omega (arith, inside)),
          mem (text_buffer + 2 * p + 1) (omega arith) (omega (arith, inside)),
        )
        (d.cells p inside);
  cursor = rw registers d.cursor;
  inside = d.inside;
  low = rw registers d.low;
  high = rw registers d.high;
  color_byte = color;
}

-- All cells blank, in the colour that the screen had, and the cursor in the first.
abbrev pub blank_page : (color : ℕ) → Page
blank_page color = record { cells = λ p. color * 256 + b' '; cursor = 0 }

-- The lines that stage 2 puts on the screen, without a kernel.
abbrev pub missing_lines : (color : ℕ) → Page
missing_lines color = type_text 15 (chars "No kernel detected at /system/kernel\r\n") (
    type_text 15 (chars "Loading kernel...\r\n") (
      type_text 15 (chars "Initializing the exFAT filesystem...\r\n")
        (type_text 15 (chars "Starting stage2 boot...\r\n") (blank_page color))))

-- The loop is reached, the screen shows the page, and cr3 is as it was.
pub record Halts (v : Page) (cr3' : ℕ) (m : Run Loader Ends) : Type 0 where
  pub after : Loader
  pub returns : m ≡ ok no_kernel after
  pub shows : Displays (screen_of after) v
  pub same_cr3 : after.cr3 ≡ cr3'

-- A text said on a screen of colour 15.
said :
    (text : List ℕ) (l : Loader) (v : Page)
    → is_plain text ≡ true
    → l.color ≡ 15
    → Displays (screen_of l) v
    → Says l (type_text 15 text v) (on_screen (print vga_output_char load_char text []) l)
said text l v plain color d =
    subst
      (λ (c : ℕ).
        Says l (type_text c text v) (on_screen (print vga_output_char load_char text []) l))
      color (say-Says text l v plain d)

cursor-Typed :
    (s : Screen) (v : Page)
    → Displays s v
    → Typed s (record v { cursor = 0 }) (set_cursor_pos 0 0 s)
cursor-Typed s v d = record {
  after = place s 0;
  returns = set_cursor_pos_lem 0 0 s (omega arith);
  displays = place-Displays s v 0 d (omega arith);
  same_color = refl;
  outside = λ x out. refl;
}

-- After its first line.
record Started (l : Loader) (m : Run Loader (Unit {0})) : Type 0 where
  after : Loader
  returns : m ≡ ok tt after
  shows :
      Displays
        (screen_of after)
        (type_text 15 (chars "Starting stage2 boot...\r\n") (blank_page l.color))
  white : after.color ≡ 15
  same_cr3 : after.cr3 ≡ l.cr3

start_screen-Started : (l : Loader) → l.color < 256 → Started l (start_screen l)
unfolding start_screen set_color
start_screen-Started l color =
    let blank = blank_page l.color in
    let clear = on_screen-Says l blank reset_display (reset_display-Typed (screen_of l) color) in
    let home =
      on_screen-Says clear.after blank (set_cursor_pos 0 0)
        (cursor-Typed (screen_of clear.after) blank clear.shows) in
    let white = record home.after { color = 15 } in
    let start = say-Says (chars "Starting stage2 boot...\r\n") white blank refl (
      same-Displays (screen_of home.after) (screen_of white) blank (λ x from to. refl) refl
        (omega arith) home.shows) in
    record {
      after = start.after;
      returns = rw (clear.returns, home.returns) start.returns;
      shows = start.shows;
      white = start.same_color;
      same_cr3 = start.same_cr3 ∙ home.same_cr3 ∙ clear.same_cr3;
    }

module _ (init_exfat : Cmd Volume (Unit {0})) (read_file_exfat : List ℕ → (dest : ℕ) → Cmd Volume ℕ)
    (bios_mem_scan : (buffer length : ℕ) → Cmd Mem ℕ) (init_vbe : Cmd Mem (Unit {0}))
    (kernel_memory mem_blocks : ℕ) (Ready : Mem → (ℕ → ℕ) → Type 0)
    (initialises : (v : Volume)
      → (v' : Volume) × (init_exfat v ≡ ok tt v')
        × (v'.mem ≡ v.mem)
        × Ready v'.boot_record v'.upcase_table)
    (misses : (v : Volume)
      → Ready v.boot_record v.upcase_table
      → (v' : Volume) × (read_file_exfat (chars "/system/kernel") 0x10_0000 v ≡ ok 0 v')
        × ((a : ℕ) → a < 0x10_0000 → v'.mem a ≡ v.mem a)) where
  load_kernel-Halts :
      (l : Loader) (v : Page)
      → l.color ≡ 15
      → Ready l.boot_record l.upcase_table
      → Displays (screen_of l) v
      → Halts
          (type_text 15
            (chars "No kernel detected at /system/kernel\r\n")
            (type_text 15 (chars "Loading kernel...\r\n") v))
          l.cr3
          (load_kernel init_exfat read_file_exfat bios_mem_scan init_vbe kernel_memory mem_blocks l)
  unfolding load_kernel
  load_kernel-Halts l v color volume d =
      let one = said (chars "Loading kernel...\r\n") l v refl color d in
      let miss = misses (volume_of one.after) (
        subst (λ (r : Mem). Ready r one.after.upcase_table) (sym one.same_record)
          (subst (Ready l.boot_record) (sym one.same_table) volume)) in
      let white : one.after.color ≡ 15 = one.same_color ∙ color in
      let read = record one.after {
        mem = miss.0.mem;
        boot_record = miss.0.boot_record;
        upcase_table = miss.0.upcase_table;
      } in
      let page = type_text 15 (chars "Loading kernel...\r\n") v in
      let two = said (chars "No kernel detected at /system/kernel\r\n") read page refl white (
        same-Displays (screen_of one.after) (screen_of read) page
          (λ x from to. miss.2 x (omega (arith, to))) refl (omega (arith, white)) one.shows) in
      record {
        after = two.after;
        returns = rw one.returns (
            ap
              (λ (r : Run Volume ℕ). and_then (from_volume one.after r) (λ (kernel_size : ℕ).
                if kernel_size == 0
                then (do say "No kernel detected at /system/kernel\r\n" []; pure no_kernel)
                else enter_kernel init_exfat read_file_exfat bios_mem_scan init_vbe kernel_memory
                    mem_blocks kernel_size))
              miss.1
            ∙ rw two.returns refl);
        shows = two.shows;
        same_cr3 = two.same_cr3 ∙ one.same_cr3;
      }

  -- Where the file system's set-up returns with a volume that is ready and changes no memory, and on
  -- such a volume there is no file `/system/kernel` and the search for it writes only from 1 MiB on,
  -- stage 2 ends in its loop that
  -- does nothing, with its four lines on an else blank screen, in white on black but for the blanks,
  -- and without a page directory set.
  pub stage2-Halts :
      (l : Loader)
      → l.color < 256
      → Halts
          (missing_lines l.color)
          l.cr3
          (stage2 init_exfat read_file_exfat bios_mem_scan init_vbe kernel_memory mem_blocks l)
  unfolding stage2
  stage2-Halts l color =
      let start = start_screen-Started l color in
      let first = type_text 15 (chars "Starting stage2 boot...\r\n") (blank_page l.color) in
      let one =
        said (chars "Initializing the exFAT filesystem...\r\n") start.after first refl start.white
          start.shows in
      let page = type_text 15 (chars "Initializing the exFAT filesystem...\r\n") first in
      let init = initialises (volume_of one.after) in
      let white : one.after.color ≡ 15 = one.same_color ∙ start.white in
      let ready = record one.after {
        mem = init.0.mem;
        boot_record = init.0.boot_record;
        upcase_table = init.0.upcase_table;
      } in
      let halt = load_kernel-Halts ready page white init.3 (
        same-Displays (screen_of one.after) (screen_of ready) page
          (λ x from to. ap (λ (h : Mem). h x) init.2) refl (omega (arith, white)) one.shows) in
      record {
        after = halt.after;
        returns =
            rw (start.returns, one.returns)
              (ap
                  (λ (r : Run Volume (Unit {0})). and_then (from_volume one.after r) (λ _.
                    load_kernel init_exfat read_file_exfat bios_mem_scan init_vbe kernel_memory
                      mem_blocks))
                  init.1
                ∙ halt.returns);
        shows = halt.shows;
        same_cr3 = halt.same_cr3 ∙ one.same_cr3 ∙ start.same_cr3;
      }
