-- ===== src/Boot/Exfat/Names.antt =====
-- The name that a directory's entries give a file.
use loof_os.Base.{
  ℕ, zero, suc, ◌+◌, ◌*◌, ◌/◌, ◌%◌, ◌<◌, ◌≤◌, ◌≡◌, ◌⊎◌, inl, inr, refl, sym, ap, subst, ◌∙◌, arith,
  List, [], ◌∷◌, add32, ltb_of_lt, eq_or_ne, lt_cases, Bool, true, false, ap₂, ==_of_eq, ◌==◌, ◌&&◌,
  if◌then◌else◌, ltb,
}
use mathlib.Core.List.{head-eq_of_cons-eq, tail-eq_of_cons-eq}
use loof_os.Machine.{Mem, write, Run, ok}
use loof_os.Machine.Memory.{write_self, write_ne}
use loof_os.Boot.Exfat.{Volume, get_mem, get_upcase, name_char}
use loof_os.Boot.Exfat.File.{put_name, chars_loop, names_loop, upcase_name, name_equal}

-- Character `p` of the name of the file whose entry is number `i` of the directory.
abbrev pub raw_char : Mem → (dir i p : ℕ) → ℕ
raw_char h dir i p = name_char h (add32 dir (32 * (i + p / 15 + 2))) (p % 15)

-- The characters from `from` to the one before `to` are given by `new`, and the others are the old.
pub record Fills (from to : ℕ) (new old : ℕ → ℕ) (v : Volume) (run : Run Volume (ℕ → ℕ))
    : Type 0 where
  pub filename : ℕ → ℕ
  pub returns : run ≡ ok filename v
  pub inside : (p : ℕ) → from ≤ p → p < to → filename p ≡ new p
  pub outside : (p : ℕ) → (p < from) ⊎ (to ≤ p) → filename p ≡ old p

chars_loop-Fills :
    (left x j entry : ℕ) (old : ℕ → ℕ) (v : Volume)
    → x + left ≡ 15
    → j < 17
    → Fills
        (j * 15 + x)
        (j * 15 + 15)
        (λ p. name_char v.mem entry (p % 15))
        old
        v
        (chars_loop left x j entry old v)
unfolding chars_loop get_mem put_name
chars_loop-Fills zero x j entry old v end fits = record {
  filename = old;
  returns = refl;
  inside = λ p from to. absurd (omega (arith, end, from, to));
  outside = λ p out. refl;
}
chars_loop-Fills (suc left) x j entry old v end fits =
    let c = name_char v.mem entry x in
    let written = write old (j * 15 + x) c in
    let rest = chars_loop-Fills left (x + 1) j entry written v (omega (arith, end)) fits in
    record {
      filename = rest.filename;
      returns = rw (ltb_of_lt {a = j * 15 + x} {b = 255} (omega (arith, fits, end))) rest.returns;
      inside = λ p from to. elim (eq_or_ne p (j * 15 + x)) [
        | inl e ↦
            let here : written p ≡ c = rw e (write_self old (j * 15 + x) c) in
            let place : x ≡ p % 15 = omega (arith, e, end) in
            rest.outside p (inl (omega (arith, e)))
            ∙ here
            ∙ ap (λ (q : ℕ). name_char v.mem entry q) place
        | inr ne ↦ rest.inside p (omega (arith, from, ne)) to
      ];
      outside = λ p out.
          rest.outside p (ground (arith, out, end))
          ∙ write_ne old (j * 15 + x) c p (ground (arith, out, end));
    }

pub names_loop-Fills :
    (left j i dir : ℕ) (old : ℕ → ℕ) (v : Volume)
    → j + left ≤ 17
    → Fills (j * 15) ((j + left) * 15) (raw_char v.mem dir i) old v (names_loop left j i dir old v)
unfolding names_loop
names_loop-Fills zero j i dir old v fits = record {
  filename = old;
  returns = refl;
  inside = λ p from to. absurd (omega (arith, from, to));
  outside = λ p out. refl;
}
names_loop-Fills (suc left) j i dir old v fits =
    let entry = add32 dir (32 * (i + j + 2)) in
    let c = chars_loop-Fills 15 0 j entry old v refl (omega (arith, fits)) in
    let rest = names_loop-Fills left (j + 1) i dir c.filename v (omega (arith, fits)) in
    record {
      filename = rest.filename;
      returns = rw c.returns rest.returns;
      inside = λ p from to. elim (lt_cases p (j * 15 + 15)) [
        | inl lt ↦
            rest.outside p (inl (omega (arith, lt)))
            ∙ c.inside p (omega (arith, from)) lt
            ∙ ap (λ (q : ℕ). name_char v.mem (add32 dir (32 * (i + q + 2))) (p % 15))
                (omega (arith, from, lt))
        | inr le ↦ rest.inside p (omega (arith, le)) (omega (arith, to))
      ];
      outside = λ p out. rest.outside p (ground (arith, out)) ∙ c.outside p (ground (arith, out));
    }

pub upcase_name-Fills :
    (left j : ℕ) (old : ℕ → ℕ) (v : Volume)
    → ((p : ℕ) → j ≤ p → p < j + left → old p < 128)
    → Fills j (j + left) (λ p. v.upcase_table (old p)) old v (upcase_name left j old v)
unfolding upcase_name get_upcase
upcase_name-Fills zero j old v ascii = record {
  filename = old;
  returns = refl;
  inside = λ p from to. absurd (omega (arith, from, to));
  outside = λ p out. refl;
}
upcase_name-Fills (suc left) j old v ascii =
    let c = v.upcase_table (old j) in
    let rest = upcase_name-Fills left (j + 1) (write old j c) v (λ p from to.
      subst (λ (q : ℕ). q < 128) (sym (write_ne old j c p (omega (arith, from))))
        (ascii p (omega (arith, from)) (omega (arith, to)))) in
    record {
      filename = rest.filename;
      returns =
          rw (ltb_of_lt {a = old j} {b = 128} (ascii j (omega arith) (omega arith))) rest.returns;
      inside = λ p from to. elim (eq_or_ne p j) [
        | inl e ↦ rest.outside p (inl (omega (arith, e))) ∙ rw e (write_self old j c)
        | inr ne ↦
            rest.inside p (omega (arith, from, ne)) (omega (arith, to))
            ∙ ap v.upcase_table (write_ne old j c p ne)
      ];
      outside =
          λ p out. rest.outside p (ground (arith, out)) ∙ write_ne old j c p (ground (arith, out));
    }

-- Only the characters compared matter.
pub name_equal-same :
    (len j : ℕ) (f g : ℕ → ℕ) (name : List ℕ)
    → ((p : ℕ) → j ≤ p → p < j + len → f p ≡ g p)
    → name_equal len j f name ≡ name_equal len j g name
unfolding name_equal
name_equal-same zero j f g name same = refl
name_equal-same (suc len) j f g [] same = refl
name_equal-same (suc len) j f g (c ∷ name) same =
    rw
      (
        same j (omega arith) (omega arith),
        name_equal-same len (j + 1) f g name
            (λ p from to. same p (omega (arith, from)) (omega (arith, to))),
      )
      refl

-- The `len` characters from `from` on.
abbrev pub spelled : (f : ℕ → ℕ) → (from len : ℕ) → List ℕ
spelled f from zero = []
spelled f from (suc len) = f from ∷ spelled f (from + 1) len

abbrev pub take : ℕ → List ℕ → List ℕ
take zero name = []
take (suc len) [] = []
take (suc len) (c ∷ name) = c ∷ take len name

both_true : (a b x : Bool) → (if a && b then x else false) ≡ true → (b ≡ true) × (x ≡ true)
both_true true true x e = (refl, e)
both_true true false x e = absurd cc
both_true false b x e = absurd cc

-- The comparison of ASCII characters finds whether they are the first of the name.
pub spelled_of_name_equal :
    (len j : ℕ) (f : ℕ → ℕ) (name : List ℕ)
    → ((p : ℕ) → j ≤ p → p < j + len → f p < 128)
    → name_equal len j f name ≡ true
    → spelled f j len ≡ take len name
unfolding name_equal
spelled_of_name_equal zero j f name ascii same = refl
spelled_of_name_equal (suc len) j f [] ascii same = absurd cc
spelled_of_name_equal (suc len) j f (c ∷ name) ascii same =
    let both = both_true (ltb c 128) (f j == c) (name_equal len (j + 1) f name) same in
    ap₂ (λ (x : ℕ) (xs : List ℕ). x ∷ xs) (of_== (f j) c both.0)
      (spelled_of_name_equal len (j + 1) f name
        (λ p from to. ascii p (omega (arith, from)) (omega (arith, to))) both.1)
  where
    of_== : (x y : ℕ) → (x == y) ≡ true → x ≡ y
    of_== x y e = ground arith

pub name_equal_of_spelled :
    (len j : ℕ) (f : ℕ → ℕ) (name : List ℕ)
    → ((p : ℕ) → j ≤ p → p < j + len → f p < 128)
    → spelled f j len ≡ take len name
    → name_equal len j f name ≡ true
unfolding name_equal
name_equal_of_spelled zero j f name ascii same = refl
name_equal_of_spelled (suc len) j f [] ascii same = absurd cc
name_equal_of_spelled (suc len) j f (c ∷ name) ascii same =
    let first : f j ≡ c = head-eq_of_cons-eq same in
    rw
      (
        ltb_of_lt {a = c} {b = 128}
            (subst (λ (x : ℕ). x < 128) first (ascii j (omega arith) (omega arith))),
        ==_of_eq first,
        name_equal_of_spelled len (j + 1) f name
            (λ p from to. ascii p (omega (arith, from)) (omega (arith, to)))
            (tail-eq_of_cons-eq same),
      )
      refl
