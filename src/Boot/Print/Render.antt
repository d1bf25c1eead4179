-- ===== src/Boot/Print/Render.antt =====
-- What `print` outputs, by the parts of its format.
use mathlib.Core.Path.{fun_ext}
use loof_os.Base.{
  ℕ, ◌-◌, ◌%◌, ◌^◌, ◌<◌, ◌≡◌, refl, sym, ◌∙◌, ap, ap₂, false, List, [], ◌∷◌, ◌++◌, map, arith, inl,
  inr, ltb_of_lt, ltb_of_le, ==_of_ne,
}
use loof_os.Machine.{Cmd, Run, pure, ◌>>◌, and_then}
use loof_os.Boot.Print.{va_arg, print_decimal, substitute, print_loop, print}
use loof_os.Boot.Print.Radix.{
  and_then_assoc, fixed, value_from-fixed, fixed-AllBelow, length-fixed, digit_char, out_all,
  out_all-append, hex_loop_lem, binary_loop_lem,
}
use loof_os.Boot.Print.Decimal.{int_result-ok, print_magnitude_lem}
use loof_os.Boot.Print.Parts.{
  Part, literal, char, decimal, hex, binary, percent, other, format_of, args_of, format_of-cons,
  args_of-cons, IsShort, IsPart, AllParts, IsNumeral, Shows, ShowsAll,
}

fixed-IsNumeral :
    (b width w : ℕ) → 0 < b → w < b ^ width → IsNumeral b width w (map digit_char (fixed b width w))
fixed-IsNumeral b width w pos small = (
  fixed b width w,
  value_from-fixed b width w pos small,
  fixed-AllBelow b width w pos,
  length-fixed b width w,
  refl,
)

module _ {S : Type 0} (outb : ℕ → Cmd S (Unit {0})) (load_char : ℕ → Cmd S ℕ) where
  -- A text that shows the part, and the command outputs it in every state.
  abbrev Outputs : Part → Cmd S (Unit {0}) → Type 0
  Outputs p m = (text : List ℕ) × Shows p text × ((s : S) → m s ≡ out_all outb load_char text s)

  print_decimal-Outputs : (w : ℕ) → IsShort w → Outputs (decimal w) (print_decimal outb load_char w)
  unfolding print_decimal
  print_decimal-Outputs w (inl small) =
      let m = print_magnitude_lem outb load_char w small in
      (
        map digit_char m.0,
        (m.0, inl (omega arith, m.1, refl)),
        λ s. rw (ltb_of_lt {a = w} {b = 2 ^ 31} (omega arith)) (m.2 s),
      )
  print_decimal-Outputs w (inr (large, fits)) =
      let m = print_magnitude_lem outb load_char (2 ^ 32 - w) (omega arith) in
      (
        b'-' ∷ map digit_char m.0,
        (m.0, inr (omega arith, m.1, refl)),
        λ s. rw (ltb_of_le {a = w} {b = 2 ^ 31} (omega arith)) (
            ap (and_then (outb b'-' s)) (
              fun_ext λ _.
                fun_ext
                  λ t. rw (int_result-ok outb load_char (2 ^ 32 - w) t (omega arith)) (m.2 t))),
      )

  -- A single part, with the arguments that follow.
  abbrev Handles : Part → List ℕ → Type 0
  Handles p args =
      (text : List ℕ) × Shows p text
      × ((rest : List ℕ) (s : S)
          → print_loop outb load_char (format_of (p ∷ []) ++ rest) false (args_of (p ∷ []) ++ args)
              s
            ≡ (out_all outb load_char text >> print_loop outb load_char rest false args) s)

  -- A command that leaves `args`, and then the rest of the format.
  regroup :
      (r : Run S (Unit {0})) (args : List ℕ) (k : List ℕ → Cmd S (Unit {0}))
      → and_then (and_then r (λ _. pure args)) k ≡ and_then r (λ _. k args)
  regroup r args k = sym (and_then_assoc r (λ _. pure args) k)

  single :
      (r : Run S (Unit {0})) (k : Cmd S (Unit {0}))
      → and_then r (λ _. k) ≡ and_then (and_then r (λ _. pure tt)) (λ _. k)
  single r k = and_then_assoc r (λ _. pure tt) (λ _. k)

  print_loop-Handles : (p : Part) (args : List ℕ) → IsPart p → Handles p args
  unfolding print_loop substitute va_arg
  print_loop-Handles (literal c) args valid = (
    c ∷ [],
    refl,
    λ rest s.
        rw (==_of_ne c b'%' valid) (single (outb c s) (print_loop outb load_char rest false args)),
  )
  print_loop-Handles (char a) args valid = (
    a % 256 ∷ [],
    refl,
    λ rest s.
        regroup (outb (a % 256) s) args (print_loop outb load_char rest false)
        ∙ single (outb (a % 256) s) (print_loop outb load_char rest false args),
  )
  print_loop-Handles (decimal w) args valid =
      let m = print_decimal-Outputs w valid in
      (
        m.0,
        m.1,
        λ rest s.
            rw (m.2 s)
              (regroup (out_all outb load_char m.0 s) args (print_loop outb load_char rest false)),
      )
  print_loop-Handles (hex w) args valid = (
    map digit_char (fixed 16 8 w),
    fixed-IsNumeral 16 8 w (omega arith) valid,
    λ rest s. rw (hex_loop_lem outb load_char 8 w) (
        regroup (out_all outb load_char (map digit_char (fixed 16 8 w)) s) args
          (print_loop outb load_char rest false)),
  )
  print_loop-Handles (binary w) args valid = (
    map digit_char (fixed 2 32 w),
    fixed-IsNumeral 2 32 w (omega arith) valid,
    λ rest s. rw (binary_loop_lem outb load_char 32 w) (
        regroup (out_all outb load_char (map digit_char (fixed 2 32 w)) s) args
          (print_loop outb load_char rest false)),
  )
  print_loop-Handles percent args valid = (
    b'%' ∷ [],
    refl,
    λ rest s.
        regroup (outb b'%' s) args (print_loop outb load_char rest false)
        ∙ single (outb b'%' s) (print_loop outb load_char rest false args),
  )
  print_loop-Handles (other d) args valid = (
    [],
    refl,
    λ rest s.
        rw
          (
            ==_of_ne d b'c' valid.0,
            ==_of_ne d b'd' valid.1,
            ==_of_ne d b's' valid.2,
            ==_of_ne d b'x' valid.3,
            ==_of_ne d b'b' valid.4,
            ==_of_ne d b'%' valid.5,
          )
          refl,
  )

  abbrev pub Renders : List Part → Type 0
  Renders ps =
      (text : List ℕ) × ShowsAll ps text
      × ((s : S)
          → print outb load_char (format_of ps) (args_of ps) s ≡ out_all outb load_char text s)

  -- `print` outputs the texts that the parts of its format show, one after the other, through
  -- `outb`, in every state and whatever `outb` does: a character for itself, `%c` for the low byte
  -- of its argument, `%d` for the decimal numeral of an `int` between -10^9 and 10^9 with its
  -- sign, `%x` and `%b` for the eight hexadecimal and thirty-two binary digits of a word, `%%` for
  -- `%`, and nothing for `%` before another character.
  pub print-Renders : (ps : List Part) → AllParts ps → Renders ps
  unfolding print print_loop
  print-Renders [] all = ([], refl, λ s. refl)
  print-Renders (p ∷ ps) all =
      let first = print_loop-Handles p (args_of ps) all.0 in
      let rest = print-Renders ps all.1 in
      (
        first.0 ++ rest.0,
        (first.0, rest.0, first.1, rest.1, refl),
        λ s.
            ap₂ (λ cs args. print_loop outb load_char cs false args s) (format_of-cons p ps)
              (args_of-cons p ps)
            ∙ first.2 (format_of ps) s
            ∙ ap (and_then (out_all outb load_char first.0 s)) (fun_ext λ _. fun_ext λ t. rest.2 t)
            ∙ sym (out_all-append outb load_char first.0 rest.0 s),
      )
