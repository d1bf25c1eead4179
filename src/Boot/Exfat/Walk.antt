-- ===== src/Boot/Exfat/Walk.antt =====
-- The walk along a path, as a walk along the names that it has between its separators.
use loof_os.Base.{
  ℕ, zero, suc, ◌+◌, ◌-◌, ◌*◌, ◌/◌, ◌≡◌, inl, inr, refl, ap, List, [], ◌∷◌, length, Bool-cases,
  add32, u32, ◌==◌, ◌&&◌, if◌then◌else◌,
}
use loof_os.Machine.{Mem, Cmd, pure, ◌>>=◌, ◌>>◌}
use loof_os.Boot.Bios.{BiosDap}
use loof_os.Boot.Exfat.{
  Volume, get_mem, entry_type, secondary_count, name_length, get_cluster_size, get_record,
  get_heap_lba, root_first_cluster, read_to,
}
use loof_os.Boot.Exfat.File.{
  name_equal, names_loop, upcase_name, load_file, entries_loop, read_file_exfat_helper, path_length,
  path_loop, read_file_exfat, cluster_bytes,
}

-- A name, unless it is empty, and the names after it.
abbrev pub with_name : List ℕ → List (List ℕ) → List (List ℕ)
with_name [] names = names
with_name (c ∷ name) names = (c ∷ name) ∷ names

-- What stands before the first `/`, and the names after it.
abbrev pub split : List ℕ → List ℕ × List (List ℕ)
split [] = ([], [])
split (c ∷ path) =
    let rest = split path in
    if c == b'/' then ([], with_name rest.0 rest.1) else (c ∷ rest.0, rest.1)

-- The names between the separators of a path.
abbrev pub names_of : List ℕ → List (List ℕ)
names_of path = with_name (split path).0 (split path).1

path_length-split : (path : List ℕ) → path_length path ≡ length (split path).0
unfolding path_length
path_length-split [] = refl
path_length-split (c ∷ path) = elim (Bool-cases (c == b'/')) [
  | inl e ↦ rw e refl
  | inr e ↦ rw e (ap (λ (n : ℕ). suc n) (path_length-split path))
]

-- The test reads no more of the path than the name.
name_equal-split :
    (j : ℕ) (f : ℕ → ℕ) (path : List ℕ)
    → name_equal (length (split path).0) j f path
      ≡ name_equal (length (split path).0) j f (split path).0
unfolding name_equal
name_equal-split j f [] = refl
name_equal-split j f (c ∷ path) = elim (Bool-cases (c == b'/')) [
  | inl e ↦ rw e refl
  | inr e ↦ rw (e, name_equal-split (j + 1) f path) refl
]

module _ (sector_bytes : ℕ) (int_13 : BiosDap → Mem → Mem) (stack : Mem) where
  entries_loop-same :
      (left skip i fuel : ℕ) (name other : List ℕ) (name_len dir dest : ℕ) (filename : ℕ → ℕ)
      → ((f : ℕ → ℕ) → name_equal name_len 0 f name ≡ name_equal name_len 0 f other)
      → entries_loop sector_bytes int_13 stack left skip i fuel name name_len dir dest filename
        ≡ entries_loop sector_bytes int_13 stack left skip i fuel other name_len dir dest filename
  unfolding entries_loop
  entries_loop-same zero skip i fuel name other name_len dir dest filename same = refl
  entries_loop-same (suc left) (suc skip) i fuel name other name_len dir dest filename same =
      entries_loop-same left skip (i + 1) fuel name other name_len dir dest filename same
  entries_loop-same (suc left) zero i fuel name other name_len dir dest filename same = λ t. do
    h ← get_mem
    if entry_type h (add32 dir (32 * i)) == 0x85
        then (do
          filename' ← names_loop (secondary_count h (add32 dir (32 * i)) - 1) 0 i dir filename
          upper ← upcase_name 255 0 filename'
          if (name_length h (add32 dir (32 * i) + 32) == name_len) && same upper t
              then load_file sector_bytes int_13 stack fuel (add32 dir (32 * i) + 32) dest
              else entries_loop-same left (secondary_count h (add32 dir (32 * i))) (i + 1) fuel name
                  other name_len dir dest upper same t)
        else entries_loop-same left zero (i + 1) fuel name other name_len dir dest filename same t

  -- Each directory leads to the next, and the last file is left.
  unfoldable pub walk : (fuel : ℕ) → List (List ℕ) → (clusters dest : ℕ) → Cmd Volume ℕ
  walk fuel [] clusters dest = pure clusters
  walk fuel (name ∷ names) clusters dest = do
    found ←
        read_file_exfat_helper sector_bytes int_13 stack fuel name (length name) dest clusters dest
    let rest = walk fuel names found dest
    if found == 0 then pure 0 else rest

  helper_same :
      (fuel : ℕ) (name other : List ℕ) (name_len dir clusters dest : ℕ)
      → ((f : ℕ → ℕ) → name_equal name_len 0 f name ≡ name_equal name_len 0 f other)
      → read_file_exfat_helper sector_bytes int_13 stack fuel name name_len dir clusters dest
        ≡ read_file_exfat_helper sector_bytes int_13 stack fuel other name_len dir clusters dest
  unfolding read_file_exfat_helper
  helper_same fuel name other name_len dir clusters dest same = λ t. do
    size ← get_cluster_size sector_bytes int_13 stack clusters
    entries_loop-same (u32 (sector_bytes * size) / 32) 0 0 fuel name other name_len dir dest
        (λ _. 0) same t

  -- Within a name, and at the start of one.
  path_loop-walk :
      (fuel : ℕ) (path : List ℕ) (clusters dest : ℕ)
      → (path_loop sector_bytes int_13 stack fuel (length (split path).0) path clusters dest
          ≡ walk fuel (split path).1 clusters dest)
        × (path_loop sector_bytes int_13 stack fuel 0 path clusters dest
            ≡ walk fuel (names_of path) clusters dest)
  unfolding path_loop walk
  path_loop-walk fuel [] clusters dest = (refl, refl)
  path_loop-walk fuel (c ∷ path) clusters dest = elim (Bool-cases (c == b'/')) [
    | inl e ↦ let rest = path_loop-walk fuel path clusters dest in (rw (e, e) rest.1, rw e rest.1)
    | inr e ↦
        let name = c ∷ (split path).0 in
        let same : (f : ℕ → ℕ)
            → name_equal (length name) 0 f (c ∷ path) ≡ name_equal (length name) 0 f name =
          λ f. rw e at (name_equal-split 0 f (c ∷ path)) in
        let len : path_length (c ∷ path) ≡ length name = rw e at (path_length-split (c ∷ path)) in
        (
          rw e (path_loop-walk fuel path clusters dest).0,
          rw (e, len, path_length-split path)
              (λ t. do
                found ← helper_same fuel (c ∷ path) name (length name) dest clusters dest same t
                let rest = (path_loop-walk fuel path found dest).0 t
                if found == 0 then pure 0 else rest),
        )
  ]

  -- From the root directory's first cluster at the destination.
  abbrev pub follow : (fuel : ℕ) → List (List ℕ) → (dest : ℕ) → Cmd Volume ℕ
  follow fuel names dest = do
    r ← get_record
    lba ← get_heap_lba sector_bytes int_13 stack (root_first_cluster r)
    size ← get_cluster_size sector_bytes int_13 stack 1
    read_to sector_bytes int_13 stack dest lba size
    clusters ← walk fuel names 1 dest
    bytes ← cluster_bytes sector_bytes int_13 stack
    pure (u32 (clusters * bytes))

  -- `read_file_exfat` reads the first cluster of the root directory to the destination, and then
  -- follows the names between the path's separators, of which there may be several in a row, at the
  -- start and at the end: each is looked up, with its full length, in the directory that the last
  -- one left at the destination, up to the first that is not found. The result is the size of the
  -- clusters read last in bytes, 0 where a name is not found.
  pub read_file_exfat-follow :
      (fuel : ℕ) (path : List ℕ) (dest : ℕ)
      → read_file_exfat sector_bytes int_13 stack fuel path dest ≡ follow fuel (names_of path) dest
  unfolding read_file_exfat
  read_file_exfat-follow fuel path dest = λ t. do
    r ← get_record
    lba ← get_heap_lba sector_bytes int_13 stack (root_first_cluster r)
    size ← get_cluster_size sector_bytes int_13 stack 1
    read_to sector_bytes int_13 stack dest lba size
    clusters ← (path_loop-walk fuel path 1 dest).1 t
    bytes ← cluster_bytes sector_bytes int_13 stack
    pure (u32 (clusters * bytes))
