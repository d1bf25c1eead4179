-- ===== src/Boot/Print/Decimal.antt =====
-- `%d`: the digits are reversed as a number and then taken from its end.
use mathlib.Core.List.{append_assoc, append-nil}
use native.Mathlib.Numerals.{towards_suc, add-one}
use native.Mathlib.Nat.{pow-le-pow_right, pow-suc}
use loof_os.Base.{
  ℕ, zero, suc, ◌+◌, ◌*◌, ◌/◌, ◌%◌, ◌^◌, ◌≤◌, ◌<◌, ◌≡◌, ◌≢◌, refl, sym, ◌∙◌, ap, subst, List, [],
  ◌∷◌, ◌++◌, map, arith, ◌⊎◌, inl, inr, length, length-append, ltb_of_lt, ==_of_gt,
}
use loof_os.Machine.{Cmd, ok}
use loof_os.Boot.Print.{int_result, reverse_loop, decimal_loop, print_magnitude}
use loof_os.Boot.Print.Radix.{
  value_from, value_from-append, AllBelow, AllBelow-snoc, digit_char, out_all, out_hex_lem,
}

-- Decimal digits of `n` with no 0 in front.
pub record Digits (ds : List ℕ) (n : ℕ) : Type 0 where
  pub value : value_from 10 0 ds ≡ n
  pub below : AllBelow 10 ds
  pub lead : ((ds ≡ []) × (n ≡ 0)) ⊎ ((d : ℕ) × (rest : List ℕ) × (ds ≡ d ∷ rest) × (d ≢ 0))

pub Digits-nil : Digits [] 0
unfolding value_from
Digits-nil = record { value = refl; below = tt; lead = inl (refl, refl) }

-- The decimal numeral of `n`: only that of 0 starts with 0.
pub record IsDecimal (ds : List ℕ) (n : ℕ) : Type 0 where
  pub value : value_from 10 0 ds ≡ n
  pub below : AllBelow 10 ds
  pub lead : (ds ≡ 0 ∷ []) ⊎ ((d : ℕ) × (rest : List ℕ) × (ds ≡ d ∷ rest) × (d ≢ 0))

IsDecimal-zero : IsDecimal (0 ∷ []) 0
unfolding value_from
IsDecimal-zero = record { value = refl; below = (omega arith, tt); lead = inl refl }

IsDecimal-of_Digits : (ds : List ℕ) (n : ℕ) → n ≢ 0 → Digits ds n → IsDecimal ds n × (0 < length ds)
IsDecimal-of_Digits ds n pos g = elim g.lead [
  | inl (none, small) ↦ absurd (pos small)
  | inr (d, rest, e, nz) ↦ (
    record { value = g.value; below = g.below; lead = inr (d, rest, e, nz) },
    subst (λ (t : List ℕ). 0 < length t) (sym e) (omega arith),
  )
]

Digits-snoc : (ds : List ℕ) (n : ℕ) → n ≢ 0 → Digits ds (n / 10) → Digits (ds ++ (n % 10 ∷ [])) n
Digits-snoc ds n pos g = record {
  value = value_from-append 10 0 ds (n % 10) ∙ omega (arith, g.value);
  below = AllBelow-snoc 10 ds (n % 10) g.below (omega arith);
  lead = elim g.lead [
    | inl (none, small) ↦ inr (
      n % 10,
      [],
      ap (λ (t : List ℕ). t ++ (n % 10 ∷ [])) none,
      λ z. pos (omega (arith, small, z)),
    )
    | inr (d, rest, e, nz) ↦
        inr (d, rest ++ (n % 10 ∷ []), ap (λ (t : List ℕ). t ++ (n % 10 ∷ [])) e, nz)
  ];
}

-- The lowest `len` digits, the lowest first.
low : (len n : ℕ) → List ℕ
low zero n = []
low (suc len) n = n % 10 ∷ low len (n / 10)

low-suc : (len r d : ℕ) → d < 10 → low (suc len) (r * 10 + d) ≡ d ∷ low len r
unfolding low
low-suc len r d lt = rw (last, front) refl
  where
    last : (r * 10 + d) % 10 ≡ d
    last = omega (arith, lt)

    front : (r * 10 + d) / 10 ≡ r
    front = omega (arith, lt)

pow-add_one : (n : ℕ) → 10 ^ (n + 1) ≡ 10 ^ n * 10
pow-add_one n = simp towards_suc (omega arith)

-- A round keeps the reversed integer below nine digits.
reversed_bound :
    (r d len : ℕ)
    → d < 10
    → r < 10 ^ len
    → len + 1 ≤ 9
    → (r * 10 + d < 10 ^ (len + 1)) × (r * 10 < 2 ^ 31) × (r * 10 + d < 2 ^ 31)
reversed_bound r d len lt fit short =
    let most : 10 ^ (len + 1) ≤ 10 ^ 9 =
      pow-le-pow_right {n = 10} (omega arith) {i = len + 1} {j = 9} short in
    (
      omega (arith, fit, lt, pow-add_one len),
      omega (arith, fit, lt, pow-add_one len, most),
      omega (arith, fit, lt, pow-add_one len, most),
    )

module _ {S : Type 0} (outb : ℕ → Cmd S (Unit {0})) (load_char : ℕ → Cmd S ℕ) where
  pub int_result-ok : (n : ℕ) (s : S) → n < 2 ^ 31 → int_result outb load_char n s ≡ ok n s
  unfolding int_result
  int_result-ok n s lt = rw (ltb_of_lt {a = n} {b = 2 ^ 31} lt) refl

  decimal_loop_lem :
      (len r : ℕ)
      → decimal_loop outb load_char len r ≡ out_all outb load_char (map digit_char (low len r))
  unfolding decimal_loop low
  decimal_loop_lem zero r = refl
  decimal_loop_lem (suc len) r =
      rw (out_hex_lem outb load_char (r % 10) (omega arith), decimal_loop_lem len (r / 10)) refl

  -- What the reversing loop gives.
  record Reversed (n reversed len : ℕ) (m : Cmd S (ℕ × ℕ)) : Type 0 where
    reversed' : ℕ
    len' : ℕ
    ds : List ℕ
    returns : (s : S) → m s ≡ ok (reversed', len') s
    lowest : low len' reversed' ≡ ds ++ low len reversed
    digits : Digits ds n
    longer : len' ≡ length ds + len

  reverse_loop-Reversed :
      (fuel f n r len : ℕ)
      → f < fuel
      → n < 10 ^ f
      → f + len ≤ 9
      → r < 10 ^ len
      → Reversed n r len (reverse_loop outb load_char fuel n r len)
  unfolding reverse_loop
  reverse_loop-Reversed zero f n r len enough small short fit = absurd (omega (arith, enough))
  reverse_loop-Reversed (suc fuel) f zero r len enough small short fit = record {
    reversed' = r;
    len' = len;
    ds = [];
    returns = λ s. refl;
    lowest = refl;
    digits = Digits-nil;
    longer = omega arith;
  }
  reverse_loop-Reversed (suc fuel) zero (suc n) r len enough small short fit =
      absurd (omega (arith, small))
  reverse_loop-Reversed (suc fuel) (suc f) (suc n) r len enough small short fit =
      let bound = reversed_bound r (suc n % 10) len (omega arith) fit (omega (arith, short)) in
      let rest =
        reverse_loop-Reversed fuel f (suc n / 10) (r * 10 + suc n % 10) (len + 1)
          (omega (arith, enough)) (omega (arith, small, pow-suc 10 f)) (omega (arith, short))
          bound.0 in
      record {
        reversed' = rest.reversed';
        len' = rest.len';
        ds = rest.ds ++ (suc n % 10 ∷ []);
        returns = λ s.
            rw
              (
                ==_of_gt {a = suc n} {b = 0} (omega arith),
                int_result-ok (r * 10) s bound.1,
                int_result-ok (r * 10 + suc n % 10) s bound.2,
              )
              (rest.returns s);
        lowest =
            rest.lowest
            ∙ ap (λ (t : List ℕ). rest.ds ++ t)
                (rw (add-one len) (low-suc len r (suc n % 10) (omega arith)))
            ∙ sym (append_assoc rest.ds (suc n % 10 ∷ []) (low len r));
        digits = Digits-snoc rest.ds (suc n) (omega arith) rest.digits;
        longer = omega (arith, rest.longer, length-append {0} rest.ds (suc n % 10 ∷ []));
      }

  -- The text of a number below 10^9.
  pub print_magnitude_lem :
      (n : ℕ)
      → n < 10 ^ 9
      → (ds : List ℕ) × IsDecimal ds n
        × ((s : S)
            → print_magnitude outb load_char n s ≡ out_all outb load_char (map digit_char ds) s)
  unfolding print_magnitude reverse_loop low
  print_magnitude_lem zero small = (0 ∷ [], IsDecimal-zero, λ s. rw (decimal_loop_lem 1 0) refl)
  print_magnitude_lem (suc n) small =
      let r =
        reverse_loop-Reversed 11 9 (suc n) 0 0 (omega arith) small (omega arith) (omega arith) in
      let text = IsDecimal-of_Digits r.ds (suc n) (omega arith) r.digits in
      (
        r.ds,
        text.0,
        λ s.
            rw
              (
                r.returns s,
                ==_of_gt {a = r.len'} {b = 0} (omega (arith, r.longer, text.1)),
                decimal_loop_lem r.len' r.reversed',
                r.lowest,
                append-nil r.ds,
              )
              refl,
      )
