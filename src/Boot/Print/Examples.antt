-- ===== src/Boot/Print/Examples.antt =====
-- `print` through a function that keeps the text.
use loof_os.Base.{ℕ, ◌^◌, ◌-◌, ◌≡◌, refl, arith, List, [], ◌∷◌, ◌++◌, inl, inr}
use loof_os.Machine.{Cmd, ok, undefined}
use loof_os.Boot.Print.{
  print, print_loop, substitute, va_arg, print_decimal, print_magnitude, reverse_loop, decimal_loop,
  out_hex, int_result, hex_loop, give_up,
}
use loof_os.Boot.Print.Parts.{Part, literal, char, decimal, hex, binary, percent, other}
use loof_os.Boot.Print.Render.{Renders, print-Renders}

abbrev keep : ℕ → Cmd (List ℕ) (Unit {0})
keep c text = ok tt (text ++ (c ∷ []))

abbrev no_char : ℕ → Cmd (List ℕ) ℕ
no_char a text = undefined

-- `x=%d%%, -7 = %d, %x %b %c%q`
abbrev parts : List Part
parts =
    literal b'x'
    ∷ literal b'='
    ∷ decimal 120
    ∷ percent
    ∷ decimal (2 ^ 32 - 7)
    ∷ hex 0xdead_beef
    ∷ binary 5
    ∷ char 0x141
    ∷ other b'q'
    ∷ []

print-Renders_example : Renders keep no_char parts
print-Renders_example = print-Renders keep no_char parts (
  omega arith,
  (
    omega arith,
    (
      inl (omega arith),
      (
        tt,
        (
          inr (omega arith, omega arith),
          (
            omega arith,
            (
              omega arith,
              (
                tt,
                (
                  (omega arith, omega arith, omega arith, omega arith, omega arith, omega arith),
                  tt,
                ),
              ),
            ),
          ),
        ),
      ),
    ),
  ),
)

print_test :
    print keep no_char (b'%' ∷ b'd' ∷ b' ' ∷ b'%' ∷ b'x' ∷ []) ((2 ^ 32 - 1200) ∷ 0x1_0a ∷ []) []
    ≡ ok tt (
        b'-' ∷ b'1' ∷ b'2' ∷ b'0' ∷ b'0' ∷ b' ' ∷ b'0' ∷ b'0' ∷ b'0' ∷ b'0' ∷ b'0' ∷ b'1' ∷ b'0'
        ∷ b'A' ∷ [])
unfolding print print_loop substitute va_arg print_decimal print_magnitude reverse_loop decimal_loop
    out_hex int_result hex_loop give_up
print_test = refl

-- Ten digits: the reverse of 1999999999 is no `int`.
ten_digits_test : print keep no_char (b'%' ∷ b'd' ∷ []) (1_999_999_999 ∷ []) [] ≡ undefined
unfolding print print_loop substitute va_arg print_decimal print_magnitude reverse_loop decimal_loop
    out_hex int_result hex_loop give_up
ten_digits_test = refl
