-- ===== src/Boot/Exfat/Search.antt =====
-- The search of a directory.
use loof_os.Base.{
  ℕ, zero, suc, ◌+◌, ◌-◌, ◌*◌, ◌^◌, ◌<◌, ◌≡◌, inl, inr, refl, sym, ap, subst, ◌∙◌, arith, List,
  Bool, Bool-cases, eq_or_ne, ◌==◌, ==_of_eq, ==_of_ne, ◌&&◌, lt_cases, Option, none, some,
}
use loof_os.Machine.{Mem, Cmd, ok, pure}
use loof_os.Boot.Bios.{BiosDap}
use loof_os.Boot.Exfat.{Volume, get_mem, entry_type, secondary_count, name_length}
use loof_os.Boot.Exfat.File.{
  name_equal, names_loop, upcase_name, load_file, entries_loop, read_file_exfat_helper,
}
use loof_os.Boot.Exfat.Sectors.{HasSize, get_cluster_size-many}
use loof_os.Boot.Exfat.Names.{raw_char, names_loop-Fills, upcase_name-Fills, name_equal-same}
use loof_os.Boot.Exfat.Find.{entry_at, IsFirst, IsEntry, has_name, find_file, find_file-IsFirst}

-- The 255 characters of `filename` are ASCII.
abbrev pub IsAscii : (ℕ → ℕ) → Type 0
IsAscii f = (p : ℕ) → p < 255 → f p < 128

-- The name that the loops make of an entry: the first characters are the file's, in upper case.
record Named (h : Mem) (dir i : ℕ) (old : ℕ → ℕ) (v : Volume) : Type 0 where
  raw : ℕ → ℕ
  upper : ℕ → ℕ
  copies : names_loop (secondary_count h (entry_at dir i) - 1) 0 i dir old v ≡ ok raw v
  uppers : upcase_name 255 0 raw v ≡ ok upper v
  ascii : IsAscii upper
  chars :
      (p : ℕ)
      → p < 15 * (secondary_count h (entry_at dir i) - 1)
      → upper p ≡ v.upcase_table (raw_char h dir i p)

name-Named :
    (dir i : ℕ) (old : ℕ → ℕ) (v : Volume)
    → IsEntry v.mem dir i
    → IsAscii old
    → ((c : ℕ) → c < 128 → v.upcase_table c < 128)
    → Named v.mem dir i old v
name-Named dir i old v entry ascii table =
    let count = secondary_count v.mem (entry_at dir i) - 1 in
    let n = names_loop-Fills count 0 i dir old v (omega (arith, entry.count)) in
    let raw_ascii : IsAscii n.filename = λ p lt. elim (lt_cases p (15 * count)) [
      | inl early ↦
          subst (λ (c : ℕ). c < 128) (sym (n.inside p (omega arith) (omega (arith, early))))
            (entry.ascii p early)
      | inr late ↦
          subst (λ (c : ℕ). c < 128) (sym (n.outside p (inr (omega (arith, late))))) (ascii p lt)
    ] in
    let u = upcase_name-Fills 255 0 n.filename v (λ p from to. raw_ascii p (omega (arith, to))) in
    record {
      raw = n.filename;
      upper = u.filename;
      copies = n.returns;
      uppers = u.returns;
      ascii = λ p lt.
          subst (λ (c : ℕ). c < 128) (sym (u.inside p (omega arith) (omega (arith, lt))))
            (table (n.filename p) (raw_ascii p lt));
      chars = λ p lt.
          u.inside p (omega arith) (omega (arith, lt, entry.count))
          ∙ ap v.upcase_table (n.inside p (omega arith) (omega (arith, lt)));
    }

-- The test on the loops' name is the test on the file's.
has_name-upper :
    (dir i : ℕ) (name : List ℕ) (name_len : ℕ) (old : ℕ → ℕ) (v : Volume)
    → IsEntry v.mem dir i
    → (m : Named v.mem dir i old v)
    → ((name_length v.mem (entry_at dir i + 32) == name_len) && name_equal name_len 0 m.upper name)
      ≡ has_name v.upcase_table v.mem dir name name_len i
has_name-upper dir i name name_len old v entry m =
    elim (eq_or_ne (name_length v.mem (entry_at dir i + 32)) name_len) [
      | inl e ↦
          ap (λ (b : Bool). (name_length v.mem (entry_at dir i + 32) == name_len) && b)
            (name_equal-same name_len 0 m.upper (λ p. v.upcase_table (raw_char v.mem dir i p)) name
              (λ p from to. m.chars p (omega (arith, to, e, entry.room))))
      | inr ne ↦ rw (==_of_ne (name_length v.mem (entry_at dir i + 32)) name_len ne) refl
    ]

module _ (sector_bytes : ℕ) (int_13 : BiosDap → Mem → Mem) (stack : Mem) where
  -- The file found is loaded, and without one the result is 0.
  abbrev pub load_found : (fuel dir dest : ℕ) → Option ℕ → Cmd Volume ℕ
  load_found fuel dir dest none = pure 0
  load_found fuel dir dest (some i) =
      load_file sector_bytes int_13 stack fuel (entry_at dir i + 32) dest

  entries_loop-load_found :
      (left skip i n fuel : ℕ) (name : List ℕ) (name_len dir dest : ℕ) (filename : ℕ → ℕ)
      (v : Volume)
      → i + left ≡ n
      → IsAscii filename
      → ((c : ℕ) → c < 128 → v.upcase_table c < 128)
      → ((k : ℕ) → k < n → entry_type v.mem (entry_at dir k) ≡ 0x85 → IsEntry v.mem dir k)
      → entries_loop sector_bytes int_13 stack left skip i fuel name name_len dir dest filename v
        ≡ load_found fuel dir dest (find_file v.upcase_table v.mem dir name name_len left skip i) v
  unfolding entries_loop get_mem
  entries_loop-load_found zero skip i n fuel name name_len dir dest filename v end ascii table
        valid =
      refl
  entries_loop-load_found (suc left) (suc skip) i n fuel name name_len dir dest filename v end ascii
        table valid =
      entries_loop-load_found left skip (i + 1) n fuel name name_len dir dest filename v
        (omega (arith, end)) ascii table valid
  entries_loop-load_found (suc left) zero i n fuel name name_len dir dest filename v end ascii table
        valid =
      elim (eq_or_ne (entry_type v.mem (entry_at dir i)) 0x85) [
        | inr other ↦ rw (==_of_ne (entry_type v.mem (entry_at dir i)) 0x85 other) (
            entries_loop-load_found left zero (i + 1) n fuel name name_len dir dest filename v
              (omega (arith, end)) ascii table valid)
        | inl file ↦
            let entry = valid i (omega (arith, end)) file in
            let m = name-Named dir i filename v entry ascii table in
            let rest =
              entries_loop-load_found left (secondary_count v.mem (entry_at dir i)) (i + 1) n fuel
                name name_len dir dest m.upper v (omega (arith, end)) m.ascii table valid in
            rw
              (
                ==_of_eq file,
                m.copies,
                m.uppers,
                has_name-upper dir i name name_len filename v entry m,
              )
              (elim (Bool-cases (has_name v.upcase_table v.mem dir name name_len i)) [
                | inl has ↦ rw has refl
                | inr lacks ↦ rw lacks rest
              ])
      ]

-- On a volume whose cluster has `units` sectors of 512 bytes, the search of a directory of
-- `clusters` clusters finds the first entry of a file whose name, each character in upper case, is
-- the first `name_len` characters of `name`, where the names' characters are ASCII, each file has all
-- of its name entries, and the upcase table has ASCII for ASCII: without such a file the result is 0 and nothing changes, and else it is that of
-- `load_file` for the stream extension after the entry.
pub read_file_exfat_helper-load_found :
    (int_13 : BiosDap → Mem → Mem) (stack : Mem) (fuel : ℕ) (name : List ℕ)
    (name_len dir clusters dest units : ℕ) (v : Volume)
    → HasSize v.boot_record units
    → 512 * (clusters * units) < 2 ^ 31
    → ((c : ℕ) → c < 128 → v.upcase_table c < 128)
    → ((k : ℕ)
        → k < 16 * (clusters * units)
        → entry_type v.mem (entry_at dir k) ≡ 0x85
        → IsEntry v.mem dir k)
    → (found : Option ℕ) × IsFirst v.upcase_table v.mem dir name name_len
        (16 * (clusters * units))
        0
        0
        found
      × (read_file_exfat_helper 512 int_13 stack fuel name name_len dir clusters dest v
          ≡ load_found 512 int_13 stack fuel dir dest found v)
unfolding read_file_exfat_helper
read_file_exfat_helper-load_found int_13 stack fuel name name_len dir clusters dest units v g small
      table valid =
    (
      find_file v.upcase_table v.mem dir name name_len (16 * (clusters * units)) 0 0,
      find_file-IsFirst v.upcase_table v.mem dir name name_len table (16 * (clusters * units)) 0 0
          (λ k lt. valid k (omega (arith, lt))),
      rw (get_cluster_size-many int_13 stack clusters units v g small) (
          ap
            (λ (left : ℕ).
              entries_loop 512 int_13 stack left 0 0 fuel name name_len dir dest (λ _. 0) v)
            (omega (arith, small))
          ∙ entries_loop-load_found 512 int_13 stack (16 * (clusters * units)) 0 0
              (16 * (clusters * units)) fuel name name_len dir dest (λ _. 0) v (omega arith)
              (λ p lt. omega arith) table valid),
    )
