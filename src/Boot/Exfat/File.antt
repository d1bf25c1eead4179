-- ===== src/Boot/Exfat/File.antt =====
-- boot/x86/fs/exfat.c: the search of a directory, the load of a file and the walk along a path. A
-- path is the list of its characters up to the 0.
use loof_os.Base.{
  ℕ, zero, suc, ◌+◌, ◌-◌, ◌*◌, ◌/◌, ◌^◌, Bool, true, false, List, [], ◌∷◌, ltb, leb, ◌==◌, ◌&&◌,
  ◌||◌, if◌then◌else◌, add32, u32,
}
use loof_os.Machine.{Mem, write, word_at, Cmd, out_of_fuel, pure, ◌>>=◌, ◌>>◌}
use loof_os.Machine.Ints.{int_add, int_mul, int_rem}
use loof_os.Boot.Bios.{BiosDap}
use loof_os.Boot.Exfat.{
  Volume, undefined_here, get_mem, get_record, root_first_cluster, get_upcase, read_to, read_buffer,
  get_heap_lba, get_fat_lba, get_cluster_size, entry_type, first_cluster, secondary_count,
  name_length, data_length, name_char,
}

-- `filename`, an array of 255 characters.
unfoldable pub put_name : (ℕ → ℕ) → ℕ → ℕ → Cmd Volume (ℕ → ℕ)
put_name filename i c = if ltb i 255 then pure (write filename i c) else undefined_here

-- `for (int x = 0; x < 15; x++)`, of the name entry at an address.
unfoldable pub chars_loop : (left x j entry : ℕ) → (ℕ → ℕ) → Cmd Volume (ℕ → ℕ)
chars_loop zero x j entry filename = pure filename
chars_loop (suc left) x j entry filename = do
  h ← get_mem
  filename' ← put_name filename (j * 15 + x) (name_char h entry x)
  chars_loop left (x + 1) j entry filename'

-- `for (int j = 0; j < name_entry_count; j++)`
unfoldable pub names_loop : (left j i dir : ℕ) → (ℕ → ℕ) → Cmd Volume (ℕ → ℕ)
names_loop zero j i dir filename = pure filename
names_loop (suc left) j i dir filename = do
  filename' ← chars_loop 15 0 j (add32 dir (32 * (i + j + 2))) filename
  names_loop left (j + 1) i dir filename'

-- `for (int j = 0; j < 255; j++)`: an index past the table is undefined.
unfoldable pub upcase_name : (left j : ℕ) → (ℕ → ℕ) → Cmd Volume (ℕ → ℕ)
upcase_name zero j filename = pure filename
upcase_name (suc left) j filename = do
  table ← get_upcase
  upper ← (if ltb (filename j) 128 then pure (table (filename j)) else undefined_here)
  upcase_name left (j + 1) (write filename j upper)

-- `for (int j = 0; j < name_len; j++)`: a `char` above 127 is negative and equal to no character.
unfoldable pub name_equal : (name_len j : ℕ) → (ℕ → ℕ) → List ℕ → Bool
name_equal zero j filename name = true
name_equal (suc name_len) j filename [] = false
name_equal (suc name_len) j filename (c ∷ name) =
    if ltb c 128 && (filename j == c) then name_equal name_len (j + 1) filename name else false

-- The length of a name that the path starts with.
unfoldable pub path_length : List ℕ → ℕ
path_length [] = 0
path_length (c ∷ path) = if c == b'/' then 0 else suc (path_length path)

module _ (drive_bytes_per_sector : ℕ) (int_13 : BiosDap → Mem → Mem) (stack : Mem) where
  -- `get_cluster_size(1) * drive_bytes_per_sector`
  unfoldable pub cluster_bytes : Cmd Volume ℕ
  cluster_bytes = do
    size ← get_cluster_size drive_bytes_per_sector int_13 stack 1
    pure (u32 (size * drive_bytes_per_sector))

  -- `(int)(data_length + cluster - 1) / cluster`, of an `uint64_t` and an `uint32_t`.
  unfoldable pub cluster_count : (data_length : ℕ) → Cmd Volume ℕ
  cluster_count data_length = do
    bytes ← cluster_bytes
    if bytes == 0 then undefined_here else pure (u32 (data_length + bytes + 2 ^ 64 - 1) / bytes)

  -- `fat_buffer[current_cluster_id % id_per_cluster]`, of two `int`s.
  unfoldable pub fat_entry : Mem → (current_cluster_id id_per_cluster : ℕ) → Cmd Volume ℕ
  fat_entry fat_buffer current_cluster_id id_per_cluster =
      let i = int_rem current_cluster_id id_per_cluster in
      if (id_per_cluster == 0) || leb (2 ^ 31) i
      then undefined_here
      else pure (word_at fat_buffer (4 * i))

  -- The clusters of a file that is not fragmented.
  unfoldable pub contiguous_loop : (left j current_cluster_id dest : ℕ) → Cmd Volume (Unit {0})
  contiguous_loop zero j current_cluster_id dest = pure tt
  contiguous_loop (suc left) j current_cluster_id dest = do
    size ← get_cluster_size drive_bytes_per_sector int_13 stack 1
    start ← int_mul drive_bytes_per_sector j
    id ← int_add current_cluster_id j
    lba ← get_heap_lba drive_bytes_per_sector int_13 stack id
    read_to drive_bytes_per_sector int_13 stack (add32 dest (u32 (start * size))) lba size
    contiguous_loop left (j + 1) current_cluster_id dest

  -- `while (1)`: the clusters along the file allocation table.
  unfoldable pub chain_loop :
      (fuel clusters_read current_cluster_id id_per_cluster dest : ℕ) → Mem → Cmd Volume (Unit {0})
  chain_loop zero clusters_read current_cluster_id id_per_cluster dest fat_buffer = λ _. out_of_fuel
  chain_loop (suc fuel) clusters_read current_cluster_id id_per_cluster dest fat_buffer = do
    size ← get_cluster_size drive_bytes_per_sector int_13 stack 1
    lba ← get_heap_lba drive_bytes_per_sector int_13 stack current_cluster_id
    read_to drive_bytes_per_sector int_13 stack
        (add32 dest (u32 (drive_bytes_per_sector * size * clusters_read))) lba size
    next ← fat_entry fat_buffer current_cluster_id id_per_cluster
    let further = (do
      fat_lba ← get_fat_lba drive_bytes_per_sector int_13 stack next
      fat_buffer' ← read_buffer drive_bytes_per_sector int_13 stack fat_lba size
      chain_loop fuel (clusters_read + 1) next id_per_cluster dest fat_buffer')
    if (next == 0xffff_ffff) || (next == 0xffff_fff7) then pure tt else further

  -- The file of the stream extension at an address.
  unfoldable pub load_file : (fuel extension dest : ℕ) → Cmd Volume ℕ
  load_file fuel extension dest = do
    h ← get_mem
    let current_cluster_id = first_cluster h extension
    size ← get_cluster_size drive_bytes_per_sector int_13 stack 1
    let id_per_cluster = u32 (drive_bytes_per_sector * size) / 4
    fat_lba ← get_fat_lba drive_bytes_per_sector int_13 stack current_cluster_id
    fat_buffer ← read_buffer drive_bytes_per_sector int_13 stack fat_lba size
    entry ← fat_entry fat_buffer current_cluster_id id_per_cluster
    count ← cluster_count (data_length h extension)
    if entry == 0
        then contiguous_loop count 0 current_cluster_id dest
        else chain_loop fuel 0 current_cluster_id id_per_cluster dest fat_buffer
    pure count

  -- `for (int i = 0; i < ...; i++)` over the entries of the directory: the clusters that were read,
  -- and 0 where no file has the name. `left` is what the bound leaves of `i`, which also skips the
  -- secondary entries.
  unfoldable pub entries_loop :
      (left skip i : ℕ) (fuel : ℕ) (name : List ℕ) (name_len dir dest : ℕ) → (ℕ → ℕ) → Cmd Volume ℕ
  entries_loop zero skip i fuel name name_len dir dest filename = pure 0
  entries_loop (suc left) (suc skip) i fuel name name_len dir dest filename =
      entries_loop left skip (i + 1) fuel name name_len dir dest filename
  entries_loop (suc left) zero i fuel name name_len dir dest filename =
      let next = entries_loop left zero (i + 1) fuel name name_len dir dest filename in
      let entry = add32 dir (32 * i) in
      let file = λ (h : Mem). (do
        filename' ← names_loop (secondary_count h entry - 1) 0 i dir filename
        upper ← upcase_name 255 0 filename'
        let others =
            entries_loop left (secondary_count h entry) (i + 1) fuel name name_len dir dest upper
        if (name_length h (entry + 32) == name_len) && name_equal name_len 0 upper name
            then load_file fuel (entry + 32) dest
            else others) in
      do h ← get_mem; if entry_type h entry == 0x85 then file h else next

  -- Reads into the directory's own buffer, as its caller does.
  unfoldable pub read_file_exfat_helper :
      (fuel : ℕ) (name : List ℕ) (name_len dir clusters dest : ℕ) → Cmd Volume ℕ
  read_file_exfat_helper fuel name name_len dir clusters dest = do
    size ← get_cluster_size drive_bytes_per_sector int_13 stack clusters
    entries_loop (u32 (drive_bytes_per_sector * size) / 32) 0 0 fuel name name_len dir dest (λ _. 0)

  -- `for (int i = 0; path[i] != '\0'; i++)`: `skip` characters of a name are left.
  unfoldable pub path_loop : (fuel skip : ℕ) → List ℕ → (dirs_clusters dest : ℕ) → Cmd Volume ℕ
  path_loop fuel skip [] dirs_clusters dest = pure dirs_clusters
  path_loop fuel (suc skip) (c ∷ path) dirs_clusters dest =
      path_loop fuel skip path dirs_clusters dest
  path_loop fuel zero (c ∷ path) dirs_clusters dest =
      let separator = path_loop fuel zero path dirs_clusters dest in
      let block = (do
        clusters ←
            read_file_exfat_helper fuel (c ∷ path) (path_length (c ∷ path)) dest dirs_clusters dest
        let rest = path_loop fuel (path_length path) path clusters dest
        if clusters == 0 then pure 0 else rest) in
      if c == b'/' then separator else block

  -- The bytes that the file's clusters have, and 0 where there is no file.
  unfoldable pub read_file_exfat : (fuel : ℕ) → List ℕ → (dest : ℕ) → Cmd Volume ℕ
  read_file_exfat fuel path dest = do
    r ← get_record
    lba ← get_heap_lba drive_bytes_per_sector int_13 stack (root_first_cluster r)
    size ← get_cluster_size drive_bytes_per_sector int_13 stack 1
    read_to drive_bytes_per_sector int_13 stack dest lba size
    clusters ← path_loop fuel 0 path 1 dest
    bytes ← cluster_bytes
    pure (u32 (clusters * bytes))
