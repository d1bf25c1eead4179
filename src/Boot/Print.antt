-- ===== src/Boot/Print.antt =====
-- boot/x86/print.c: formatted output through a function that outputs one character. A C string is
-- the list of its characters, without the 0 that ends it, and the variable arguments are words.
mod Examples
pub mod Radix
pub mod Decimal
pub mod Parts
pub mod Render
use loof_os.Base.{
  ℕ, zero, suc, ◌+◌, ◌-◌, ◌*◌, ◌/◌, ◌%◌, ◌^◌, Bool, true, false, List, [], ◌∷◌, ltb, ◌==◌,
  if◌then◌else◌, add32, sub32, u8, get_elem?, Option, none, some,
}
use loof_os.Machine.{Cmd, Run, undefined, out_of_fuel, pure, ◌>>=◌, ◌>>◌}

abbrev pub hex_chars : List ℕ
hex_chars =
    b'0' ∷ b'1' ∷ b'2' ∷ b'3' ∷ b'4' ∷ b'5' ∷ b'6' ∷ b'7' ∷ b'8' ∷ b'9' ∷ b'A' ∷ b'B' ∷ b'C' ∷ b'D'
    ∷ b'E' ∷ b'F' ∷ []

-- The state is the output function's; `load_char` reads a character in memory.
module _ {S : Type 0} (outb : ℕ → Cmd S (Unit {0})) (load_char : ℕ → Cmd S ℕ) where
  give_up : {A : Type 0} → Cmd S A
  give_up s = undefined

  -- An index past the string's end is undefined.
  unfoldable pub out_hex : ℕ → Cmd S (Unit {0})
  unfolding give_up
  out_hex d = elim (get_elem? hex_chars d) [ some c ↦ outb c | none ↦ give_up ]

  -- `va_arg`: the next argument, and those after it.
  unfoldable pub va_arg : List ℕ → Cmd S (ℕ × List ℕ)
  unfolding give_up
  va_arg [] = give_up
  va_arg (a ∷ args) = pure (a, args)

  -- A non-negative `int` as the result of an operation; past 2^31 - 1 C leaves it undefined.
  unfoldable pub int_result : ℕ → Cmd S ℕ
  unfolding give_up
  int_result n = if ltb n (2 ^ 31) then pure n else give_up

  -- `while (sign_integer > 0)`: the reversed integer and its length.
  unfoldable pub reverse_loop : (fuel n reversed len : ℕ) → Cmd S (ℕ × ℕ)
  reverse_loop zero n reversed len = λ _. out_of_fuel
  reverse_loop (suc fuel) n reversed len =
      let round = (do
        shifted ← int_result (reversed * 10)
        reversed' ← int_result (shifted + n % 10)
        reverse_loop fuel (n / 10) reversed' (len + 1)) in
      if n == 0 then pure (reversed, len) else round

  -- `for (dec_place = len - 1; dec_place >= 0; dec_place--)`
  unfoldable pub decimal_loop : (left reversed : ℕ) → Cmd S (Unit {0})
  decimal_loop zero reversed = pure tt
  decimal_loop (suc left) reversed = do out_hex (reversed % 10); decimal_loop left (reversed / 10)

  unfoldable pub print_magnitude : ℕ → Cmd S (Unit {0})
  print_magnitude n = do
    (reversed, len) ← reverse_loop 11 n 0 0
    decimal_loop (if len == 0 then 1 else len) reversed

  -- `%d`, of the `int` with this bit pattern.
  unfoldable pub print_decimal : ℕ → Cmd S (Unit {0})
  print_decimal w =
      if ltb w (2 ^ 31)
      then print_magnitude w
      else (do outb b'-'; n ← int_result (2 ^ 32 - w); print_magnitude n)

  -- `while (nstr)`: the pointer itself is tested.
  unfoldable pub string_loop : (fuel nstr : ℕ) → Cmd S (Unit {0})
  string_loop zero nstr = λ _. out_of_fuel
  string_loop (suc fuel) nstr =
      let round = (do c ← load_char nstr; outb c; string_loop fuel (add32 nstr 1)) in
      if nstr == 0 then pure tt else round

  unfoldable pub hex_loop : (left n : ℕ) → Cmd S (Unit {0})
  hex_loop zero n = pure tt
  hex_loop (suc place) n = do out_hex (n / 2 ^ (place * 4) % 16); hex_loop place n

  unfoldable pub binary_loop : (left n : ℕ) → Cmd S (Unit {0})
  binary_loop zero n = pure tt
  binary_loop (suc place) n = do
    outb (if n / 2 ^ place % 2 == 0 then b'0' else b'1')
    binary_loop place n

  -- The switch on the character after `%`: the arguments that are left.
  unfoldable pub substitute : ℕ → List ℕ → Cmd S (List ℕ)
  substitute c args =
      if c == b'c'
      then (do (a, rest) ← va_arg args; outb (u8 a); pure rest)
      else (if c == b'd'
          then (do (a, rest) ← va_arg args; print_decimal a; pure rest)
          else (if c == b's'
              then (do (a, rest) ← va_arg args; string_loop (2 ^ 32) a; pure rest)
              else (if c == b'x'
                  then (do (a, rest) ← va_arg args; hex_loop 8 a; pure rest)
                  else (if c == b'b'
                      then (do (a, rest) ← va_arg args; binary_loop 32 a; pure rest)
                      else (if c == b'%' then (do outb b'%'; pure args) else pure args)))))

  unfoldable pub print_loop : List ℕ → Bool → List ℕ → Cmd S (Unit {0})
  print_loop [] substituting args = pure tt
  print_loop (c ∷ cs) true args = do rest ← substitute c args; print_loop cs false rest
  print_loop (c ∷ cs) false args =
      let after = print_loop cs (c == b'%') args in if c == b'%' then after else (do outb c; after)

  unfoldable pub print : List ℕ → List ℕ → Cmd S (Unit {0})
  print format args = print_loop format false args
