-- ===== src/Boot/Print/Parts.antt =====
-- The parts of a format for `print`, and the text that each is to show.
use loof_os.Base.{
  ℕ, ◌+◌, ◌-◌, ◌%◌, ◌^◌, ◌≤◌, ◌<◌, ◌≡◌, ◌≢◌, refl, List, [], ◌∷◌, ◌++◌, map, ◌⊎◌, length,
}
use loof_os.Boot.Print.Radix.{AllBelow, value_from, digit_char}
use loof_os.Boot.Print.Decimal.{IsDecimal}

-- A part of a format with the argument that it takes.
pub data Part : Type 0 where
  literal : ℕ → Part
  char : ℕ → Part
  decimal : ℕ → Part
  hex : ℕ → Part
  binary : ℕ → Part
  percent : Part
  other : ℕ → Part

abbrev pub format_of : List Part → List ℕ
format_of [] = []
format_of (literal c ∷ ps) = c ∷ format_of ps
format_of (char a ∷ ps) = b'%' ∷ b'c' ∷ format_of ps
format_of (decimal w ∷ ps) = b'%' ∷ b'd' ∷ format_of ps
format_of (hex w ∷ ps) = b'%' ∷ b'x' ∷ format_of ps
format_of (binary w ∷ ps) = b'%' ∷ b'b' ∷ format_of ps
format_of (percent ∷ ps) = b'%' ∷ b'%' ∷ format_of ps
format_of (other d ∷ ps) = b'%' ∷ d ∷ format_of ps

abbrev pub args_of : List Part → List ℕ
args_of [] = []
args_of (literal c ∷ ps) = args_of ps
args_of (char a ∷ ps) = a ∷ args_of ps
args_of (decimal w ∷ ps) = w ∷ args_of ps
args_of (hex w ∷ ps) = w ∷ args_of ps
args_of (binary w ∷ ps) = w ∷ args_of ps
args_of (percent ∷ ps) = args_of ps
args_of (other d ∷ ps) = args_of ps

pub format_of-cons :
    (p : Part) (ps : List Part) → format_of (p ∷ ps) ≡ format_of (p ∷ []) ++ format_of ps
format_of-cons (literal c) ps = refl
format_of-cons (char a) ps = refl
format_of-cons (decimal w) ps = refl
format_of-cons (hex w) ps = refl
format_of-cons (binary w) ps = refl
format_of-cons percent ps = refl
format_of-cons (other d) ps = refl

pub args_of-cons : (p : Part) (ps : List Part) → args_of (p ∷ ps) ≡ args_of (p ∷ []) ++ args_of ps
args_of-cons (literal c) ps = refl
args_of-cons (char a) ps = refl
args_of-cons (decimal w) ps = refl
args_of-cons (hex w) ps = refl
args_of-cons (binary w) ps = refl
args_of-cons percent ps = refl
args_of-cons (other d) ps = refl

-- An `int` by its bit pattern: between -10^9 and 10^9, so that its reverse is an `int` too.
abbrev pub IsShort : ℕ → Type 0
IsShort w = (w < 10 ^ 9) ⊎ ((2 ^ 32 < w + 10 ^ 9) × (w < 2 ^ 32))

abbrev pub IsPart : Part → Type 0
IsPart (literal c) = c ≢ b'%'
IsPart (char a) = Unit {0}
IsPart (decimal w) = IsShort w
IsPart (hex w) = w < 2 ^ 32
IsPart (binary w) = w < 2 ^ 32
IsPart percent = Unit {0}
IsPart (other d) = (d ≢ b'c') × (d ≢ b'd') × (d ≢ b's') × (d ≢ b'x') × (d ≢ b'b') × (d ≢ b'%')

abbrev pub AllParts : List Part → Type 0
AllParts [] = Unit {0}
AllParts (p ∷ ps) = IsPart p × AllParts ps

-- The text has `width` digits, which stand for `w` in base `b`.
abbrev pub IsNumeral : (b width w : ℕ) → List ℕ → Type 0
IsNumeral b width w text =
    (ds : List ℕ) × (value_from b 0 ds ≡ w)
    × AllBelow b ds
    × (length ds ≡ width)
    × (text ≡ map digit_char ds)

abbrev pub Shows : Part → List ℕ → Type 0
Shows (literal c) text = text ≡ c ∷ []
Shows (char a) text = text ≡ a % 256 ∷ []
Shows (decimal w) text =
    (ds : List ℕ) × (((w < 2 ^ 31) × IsDecimal ds w × (text ≡ map digit_char ds))
      ⊎ ((2 ^ 31 ≤ w) × IsDecimal ds (2 ^ 32 - w) × (text ≡ b'-' ∷ map digit_char ds)))
Shows (hex w) text = IsNumeral 16 8 w text
Shows (binary w) text = IsNumeral 2 32 w text
Shows percent text = text ≡ b'%' ∷ []
Shows (other d) text = text ≡ []

abbrev pub ShowsAll : List Part → List ℕ → Type 0
ShowsAll [] text = text ≡ []
ShowsAll (p ∷ ps) text =
    (first : List ℕ) × (rest : List ℕ) × Shows p first × ShowsAll ps rest × (text ≡ first ++ rest)
