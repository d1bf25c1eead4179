-- ===== src/Boot/Exfat/Find.antt =====
-- What the search of a directory is to find: the first file with the name.
use loof_os.Base.{
  ℕ, zero, suc, ◌+◌, ◌-◌, ◌*◌, ◌<◌, ◌≤◌, ◌≡◌, ◌≢◌, ◌⊎◌, false, true, inl, inr, refl, sym, subst,
  ◌∙◌, arith, List, Bool, Bool-cases, add32, eq_or_ne, ◌==◌, ==_of_eq, ==_of_ne, ◌&&◌,
  if◌then◌else◌, Option, none, some,
}
use loof_os.Machine.{Mem}
use loof_os.Boot.Exfat.{entry_type, secondary_count, name_length}
use loof_os.Boot.Exfat.File.{name_equal}
use loof_os.Boot.Exfat.Names.{spelled, take, spelled_of_name_equal, name_equal_of_spelled, raw_char}

abbrev pub entry_at : (dir i : ℕ) → ℕ
entry_at dir i = add32 dir (32 * i)

-- The file whose entry is number `i` has the name of the first `name_len` characters of `name`, in
-- the upper case of `table`.
pub record HasName (table : ℕ → ℕ) (h : Mem) (dir : ℕ) (name : List ℕ) (name_len i : ℕ)
    : Type 0 where
  pub length : name_length h (entry_at dir i + 32) ≡ name_len
  pub chars : spelled (λ p. table (raw_char h dir i p)) 0 name_len ≡ take name_len name

-- `found` is the number of the entry of the first file with the name: from entry `i`, with `left`
-- entries left, the first `skip` of which belong to a file before.
abbrev pub IsFirst :
    (table : ℕ → ℕ)
    → Mem
    → (dir : ℕ) → (name : List ℕ) → (name_len left skip i : ℕ) → (found : Option ℕ) → Type 0
IsFirst table h dir name name_len zero skip i found = found ≡ none
IsFirst table h dir name name_len (suc left) (suc skip) i found =
    IsFirst table h dir name name_len left skip (i + 1) found
IsFirst table h dir name name_len (suc left) zero i found =
    ((entry_type h (entry_at dir i) ≢ 0x85)
      × IsFirst table h dir name name_len left zero (i + 1) found)
    ⊎ ((entry_type h (entry_at dir i) ≡ 0x85)
        × ((HasName table h dir name name_len i × (found ≡ some i))
            ⊎ ((¬ HasName table h dir name name_len i)
                × IsFirst table h dir name name_len left (secondary_count h (entry_at dir i))
                    (i + 1) found)))

-- The test of the code, on the file's own name.
abbrev pub has_name : (table : ℕ → ℕ) → Mem → (dir : ℕ) → (name : List ℕ) → (name_len i : ℕ) → Bool
has_name table h dir name name_len i =
    (name_length h (entry_at dir i + 32) == name_len)
    && name_equal name_len 0 (λ p. table (raw_char h dir i p)) name

-- The search with that test.
abbrev pub find_file :
    (table : ℕ → ℕ) → Mem → (dir : ℕ) → (name : List ℕ) → (name_len left skip i : ℕ) → Option ℕ
find_file table h dir name name_len zero skip i = none
find_file table h dir name name_len (suc left) (suc skip) i =
    find_file table h dir name name_len left skip (i + 1)
find_file table h dir name name_len (suc left) zero i =
    let next = find_file table h dir name name_len left zero (i + 1) in
    let others =
      find_file table h dir name name_len left (secondary_count h (entry_at dir i)) (i + 1) in
    if entry_type h (entry_at dir i) == 0x85
    then (if has_name table h dir name name_len i then some i else others)
    else next

-- The file's name has at most 255 characters, all of them ASCII and in its name entries.
pub record IsEntry (h : Mem) (dir i : ℕ) : Type 0 where
  pub count : secondary_count h (entry_at dir i) ≤ 18
  pub named : 1 ≤ secondary_count h (entry_at dir i)
  pub room : name_length h (entry_at dir i + 32) ≤ 15 * (secondary_count h (entry_at dir i) - 1)
  pub ascii : (p : ℕ) → p < 15 * (secondary_count h (entry_at dir i) - 1) → raw_char h dir i p < 128

false_ne_true : ¬ (false ≡ true)
false_ne_true e = cc

-- The test finds whether the file has the name.
module _ (table : ℕ → ℕ) (h : Mem) (dir : ℕ) (name : List ℕ) (name_len : ℕ)
    (upper : (c : ℕ) → c < 128 → table c < 128) where
  chars_ascii :
      (i : ℕ)
      → IsEntry h dir i
      → name_length h (entry_at dir i + 32) ≡ name_len
      → (p : ℕ) → 0 ≤ p
      → p < 0 + name_len
      → table (raw_char h dir i p) < 128
  chars_ascii i entry len p from to =
      upper (raw_char h dir i p) (entry.ascii p (omega (arith, entry.room, len, to)))

  has_name-HasName :
      (i : ℕ)
      → IsEntry h dir i
      → has_name table h dir name name_len i ≡ true
      → HasName table h dir name name_len i
  has_name-HasName i entry has = elim (eq_or_ne (name_length h (entry_at dir i + 32)) name_len) [
    | inl e ↦ record {
      length = e;
      chars =
          spelled_of_name_equal name_len 0 (λ p. table (raw_char h dir i p)) name
            (chars_ascii i entry e)
            (subst
              (λ (b : Bool).
                (b && name_equal name_len 0 (λ p. table (raw_char h dir i p)) name) ≡ true)
              (==_of_eq e) has);
    }
    | inr ne ↦ absurd (
        false_ne_true (
          subst
            (λ (b : Bool).
              (b && name_equal name_len 0 (λ p. table (raw_char h dir i p)) name) ≡ true)
            (==_of_ne (name_length h (entry_at dir i + 32)) name_len ne) has))
  ]

  HasName-has_name :
      (i : ℕ)
      → IsEntry h dir i
      → HasName table h dir name name_len i
      → has_name table h dir name name_len i ≡ true
  HasName-has_name i entry named =
      rw
        (
          ==_of_eq named.length,
          name_equal_of_spelled name_len 0 (λ p. table (raw_char h dir i p)) name
              (chars_ascii i entry named.length) named.chars,
        )
        refl

  pub find_file-IsFirst :
      (left skip i : ℕ)
      → ((k : ℕ) → k < i + left → entry_type h (entry_at dir k) ≡ 0x85 → IsEntry h dir k)
      → IsFirst table h dir name name_len left skip i
          (find_file table h dir name name_len left skip i)
  find_file-IsFirst zero skip i valid = refl
  find_file-IsFirst (suc left) (suc skip) i valid =
      find_file-IsFirst left skip (i + 1) (λ k lt. valid k (omega (arith, lt)))
  find_file-IsFirst (suc left) zero i valid = elim (eq_or_ne (entry_type h (entry_at dir i)) 0x85) [
    | inr other ↦
        rw (==_of_ne (entry_type h (entry_at dir i)) 0x85 other)
          (inl (other, find_file-IsFirst left zero (i + 1) (λ k lt. valid k (omega (arith, lt)))))
    | inl file ↦
        let entry = valid i (omega arith) file in
        rw (==_of_eq file) (elim (Bool-cases (has_name table h dir name name_len i)) [
          | inl has ↦ rw has (inr (file, inl (has_name-HasName i entry has, refl)))
          | inr lacks ↦ rw lacks (
              inr (
                file,
                inr (
                  (λ named. false_ne_true (sym lacks ∙ HasName-has_name i entry named)),
                  find_file-IsFirst left (secondary_count h (entry_at dir i)) (i + 1)
                      (λ k lt. valid k (omega (arith, lt))),
                ),
              ))
        ])
  ]
