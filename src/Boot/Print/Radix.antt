-- ===== src/Boot/Print/Radix.antt =====
-- Numbers as digits, the first the highest, and the loops that output them.
use mathlib.Core.Path.{fun_ext}
use native.Mathlib.Numerals.{towards_suc}
use native.Mathlib.Nat.{
  div-div-eq-div-mul, mod-lt, pow-zero, div-one, div-add-mod', pow-succ', div-lt_iff_lt-mul,
}
use loof_os.Base.{
  ℕ, zero, suc, ◌+◌, ◌-◌, ◌*◌, ◌/◌, ◌%◌, ◌^◌, ◌<◌, ◌≡◌, refl, ◌∙◌, ap, List, [], ◌∷◌, ◌++◌, map,
  arith, ltb, ◌==◌, if◌then◌else◌, get_elem?, some, pow-suc, length, length-append,
}
use loof_os.Machine.{Cmd, Run, ok, undefined, out_of_fuel, pure, ◌>>=◌, ◌>>◌, and_then}
use loof_os.Boot.Print.{hex_chars, out_hex, hex_loop, binary_loop}

-- The `width` lowest digits of `n` in base `b`.
unfoldable pub fixed : (b width n : ℕ) → List ℕ
fixed b zero n = []
fixed b (suc width) n = fixed b width (n / b) ++ (n % b ∷ [])

-- The number that digits stand for.
unfoldable pub value_from : (b acc : ℕ) → List ℕ → ℕ
value_from b acc [] = acc
value_from b acc (d ∷ ds) = value_from b (acc * b + d) ds

-- Every digit is one of base `b`.
abbrev pub AllBelow : ℕ → List ℕ → Type 0
AllBelow b [] = Unit {0}
AllBelow b (d ∷ ds) = (d < b) × AllBelow b ds

pub AllBelow-snoc :
    (b : ℕ) (ds : List ℕ) (d : ℕ) → AllBelow b ds → d < b → AllBelow b (ds ++ (d ∷ []))
AllBelow-snoc b [] d all lt = (lt, tt)
AllBelow-snoc b (e ∷ ds) d all lt = (all.0, AllBelow-snoc b ds d all.1 lt)

pub fixed-AllBelow : (b w n : ℕ) → 0 < b → AllBelow b (fixed b w n)
unfolding fixed
fixed-AllBelow b zero n pos = tt
fixed-AllBelow b (suc w) n pos =
    AllBelow-snoc b (fixed b w (n / b)) (n % b) (fixed-AllBelow b w (n / b) pos) (mod-lt n pos)

pub length-fixed : (b w n : ℕ) → length (fixed b w n) ≡ w
unfolding fixed
length-fixed b zero n = refl
length-fixed b (suc w) n =
    omega (arith, length-append {0} (fixed b w (n / b)) (n % b ∷ []), length-fixed b w (n / b))

pub value_from-append :
    (b acc : ℕ) (ds : List ℕ) (d : ℕ)
    → value_from b acc (ds ++ (d ∷ [])) ≡ value_from b acc ds * b + d
unfolding value_from
value_from-append b acc [] d = refl
value_from-append b acc (e ∷ ds) d = value_from-append b (acc * b + e) ds d

pub value_from-fixed : (b w n : ℕ) → 0 < b → n < b ^ w → value_from b 0 (fixed b w n) ≡ n
unfolding fixed value_from
value_from-fixed b zero n pos lt = omega (arith, rw pow-zero at lt)
value_from-fixed b (suc w) n pos lt =
    value_from-append b 0 (fixed b w (n / b)) (n % b)
    ∙ rw (value_from-fixed b w (n / b) pos ((div-lt_iff_lt-mul pos).1 (rw pow-suc at lt)))
        (div-add-mod' n b)

pub fixed-zero : (b n : ℕ) → fixed b 0 n ≡ []
unfolding fixed
fixed-zero b n = refl

pow-add_four : (k : ℕ) → 2 ^ (k + 4) ≡ 16 * 2 ^ k
pow-add_four k = simp towards_suc (omega arith)

pow-mul_four : (w : ℕ) → 2 ^ (w * 4) ≡ 16 ^ w
pow-mul_four zero = refl
pow-mul_four (suc w) =
    ap (λ (k : ℕ). 2 ^ k) next ∙ pow-add_four (w * 4) ∙ rw (pow-mul_four w, pow-succ') refl
  where
    next : suc w * 4 ≡ w * 4 + 4
    next = omega arith

pub fixed-suc : (b w n : ℕ) → fixed b (suc w) n ≡ (n / b ^ w % b) ∷ fixed b w n
unfolding fixed
fixed-suc b zero n = rw (pow-zero, div-one) refl
fixed-suc b (suc w) n =
    ap (λ (ds : List ℕ). ds ++ (n % b ∷ [])) (fixed-suc b w (n / b))
    ∙ rw (div-div-eq-div-mul, ← pow-succ') refl

-- The character of a digit.
abbrev pub digit_char : ℕ → ℕ
digit_char d = if ltb d 10 then b'0' + d else b'A' + (d - 10)

pub hex_chars_lem : (d : ℕ) → d < 16 → get_elem? hex_chars d ≡ some (digit_char d)
hex_chars_lem zero lt = refl
hex_chars_lem (suc zero) lt = refl
hex_chars_lem (suc (suc zero)) lt = refl
hex_chars_lem (suc (suc (suc zero))) lt = refl
hex_chars_lem (suc (suc (suc (suc zero)))) lt = refl
hex_chars_lem (suc (suc (suc (suc (suc zero))))) lt = refl
hex_chars_lem (suc (suc (suc (suc (suc (suc zero)))))) lt = refl
hex_chars_lem (suc (suc (suc (suc (suc (suc (suc zero))))))) lt = refl
hex_chars_lem (suc (suc (suc (suc (suc (suc (suc (suc zero)))))))) lt = refl
hex_chars_lem (suc (suc (suc (suc (suc (suc (suc (suc (suc zero))))))))) lt = refl
hex_chars_lem (suc (suc (suc (suc (suc (suc (suc (suc (suc (suc zero)))))))))) lt = refl
hex_chars_lem (suc (suc (suc (suc (suc (suc (suc (suc (suc (suc (suc zero))))))))))) lt = refl
hex_chars_lem (suc (suc (suc (suc (suc (suc (suc (suc (suc (suc (suc (suc zero)))))))))))) lt = refl
hex_chars_lem (suc (suc (suc (suc (suc (suc (suc (suc (suc (suc (suc (suc (suc zero)))))))))))))
      lt =
    refl
hex_chars_lem
      (suc (suc (suc (suc (suc (suc (suc (suc (suc (suc (suc (suc (suc (suc zero)))))))))))))) lt =
    refl
hex_chars_lem
      (suc (suc (suc (suc (suc (suc (suc (suc (suc (suc (suc (suc (suc (suc (suc zero)))))))))))))))
      lt =
    refl
hex_chars_lem
      (suc
        (suc (suc (suc (suc (suc (suc (suc (suc (suc (suc (suc (suc (suc (suc (suc d))))))))))))))))
      lt =
    absurd (omega (arith, lt))

pub and_then_assoc :
    {S A B C : Type 0} (r : Run S A) (f : A → Cmd S B) (g : B → Cmd S C)
    → and_then r (λ a. f a >>= g) ≡ and_then (and_then r f) g
and_then_assoc (ok a h) f g = refl
and_then_assoc undefined f g = refl
and_then_assoc out_of_fuel f g = refl

bit_char : (d : ℕ) → d < 2 → (if d == 0 then b'0' else b'1') ≡ digit_char d
bit_char d lt = ground arith

module _ {S : Type 0} (outb : ℕ → Cmd S (Unit {0})) (load_char : ℕ → Cmd S ℕ) where
  -- All of a text, in order.
  abbrev pub out_all : List ℕ → Cmd S (Unit {0})
  out_all [] = pure tt
  out_all (c ∷ cs) = outb c >> out_all cs

  pub out_hex_lem : (d : ℕ) → d < 16 → out_hex outb load_char d ≡ outb (digit_char d)
  unfolding out_hex
  out_hex_lem d lt = rw (hex_chars_lem d lt) refl

  pub out_all-append :
      (cs ds : List ℕ) (s : S) → out_all (cs ++ ds) s ≡ (out_all cs >> out_all ds) s
  out_all-append [] ds s = refl
  out_all-append (c ∷ cs) ds s =
      ap (and_then (outb c s)) (fun_ext λ _. fun_ext λ t. out_all-append cs ds t)
      ∙ and_then_assoc (outb c s) (λ _. out_all cs) (λ _. out_all ds)

  pub hex_loop_lem :
      (w n : ℕ) → hex_loop outb load_char w n ≡ out_all (map digit_char (fixed 16 w n))
  unfolding hex_loop
  hex_loop_lem zero n = rw (fixed-zero 16 n) refl
  hex_loop_lem (suc w) n =
      rw
        (
          fixed-suc 16 w n,
          pow-mul_four w,
          out_hex_lem (n / 16 ^ w % 16) (omega arith),
          hex_loop_lem w n,
        )
        refl

  pub binary_loop_lem :
      (w n : ℕ) → binary_loop outb load_char w n ≡ out_all (map digit_char (fixed 2 w n))
  unfolding binary_loop
  binary_loop_lem zero n = rw (fixed-zero 2 n) refl
  binary_loop_lem (suc w) n =
      rw (fixed-suc 2 w n, binary_loop_lem w n)
        (ap (λ (c : ℕ). outb c >> out_all (map digit_char (fixed 2 w n)))
          (bit_char (n / 2 ^ w % 2) (omega arith)))
