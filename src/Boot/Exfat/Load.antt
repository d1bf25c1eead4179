-- ===== src/Boot/Exfat/Load.antt =====
-- Whole files: the clusters in one run, or along the file allocation table.
use loof_os.Base.{
  ℕ, ◌+◌, ◌-◌, ◌*◌, ◌/◌, ◌%◌, ◌^◌, ◌<◌, ◌≤◌, ◌≡◌, ◌≢◌, ◌⊎◌, inl, inr, refl, sym, subst, ap, ap₂,
  ◌∙◌, arith, List, [], ◌∷◌, length, if◌then◌else◌, ◌==◌, ==_of_gt, ==_of_eq, ==_of_ne, u32,
}
use loof_os.Machine.{Mem, word_at, Run, ok, pure, ◌>>◌}
use loof_os.Boot.Bios.{BiosDap}
use loof_os.Boot.Bios.Read.{lba_of}
use loof_os.Boot.Exfat.{Volume, read_buffer, get_mem, first_cluster, data_length}
use loof_os.Boot.Exfat.File.{contiguous_loop, chain_loop, cluster_bytes, cluster_count, load_file}
use loof_os.Boot.Exfat.Sectors.{
  fat_sector, HasSize, get_fat_lba_lem, get_cluster_size_lem, fat_word, read_buffer-Buffered,
  buffer-fat_word,
}
use loof_os.Boot.Exfat.Contiguous.{run_of, AllInReach, run_bytes, contiguous_loop-Followed}
use loof_os.Boot.Exfat.Chain.{
  IsChain-IsFound, IsFound, IsChain, HoldsClusters, fat_entry_lem, chain_loop-Followed,
}

-- The clusters of a file with this first cluster and number of clusters: a run, if the table has
-- 0 for the first, or else the chain along the table.
abbrev pub IsFile : (disk : ℕ → ℕ → ℕ) → (units : ℕ) → Mem → (first count : ℕ) → List ℕ → Type 0
IsFile disk units r first count cs =
    ((fat_word disk r first ≡ 0)
      × IsFound r units first
      × (cs ≡ run_of first count)
      × AllInReach r cs)
    ⊎ ((rest : List ℕ) × (cs ≡ first ∷ rest) × IsChain disk r units cs × (length cs ≡ count))

-- The file's clusters are at the destination, and nothing else has changed.
pub record IsLoaded (disk : ℕ → ℕ → ℕ) (units count dest : ℕ) (cs : List ℕ) (v : Volume)
    (run : Run Volume ℕ) : Type 0 where
  pub memory : Mem
  pub returns : run ≡ ok count (record v { mem = memory })
  pub clusters : HoldsClusters disk v.boot_record units dest memory 0 cs
  pub others : (a : ℕ) → (a < dest) ⊎ (dest + 512 * units * count ≤ a) → memory a ≡ v.mem a

module _ (int_13 : BiosDap → Mem → Mem) (stack : Mem) (disk : ℕ → ℕ → ℕ) (units : ℕ)
    (reads : (dap : BiosDap) (buffer : Mem) (k : ℕ)
      → k < 512
      → int_13 dap buffer k ≡ disk (lba_of dap) k) where
  chain_entry :
      (c : ℕ) (cs : List ℕ) (r : Mem) → IsChain disk r units (c ∷ cs) → fat_word disk r c ≢ 0
  chain_entry c [] r (found, inl stop) none = absurd (omega (arith, stop, none))
  chain_entry c [] r (found, inr stop) none = absurd (omega (arith, stop, none))
  chain_entry c (d ∷ []) r (found, link, chain) none =
      absurd (omega (arith, link, none, chain.0.reach.from))
  chain_entry c (d ∷ e ∷ cs) r (found, link, chain) none =
      absurd (omega (arith, link, none, chain.0.reach.from))

  cluster_count_lem :
      (len count : ℕ) (v : Volume)
      → HasSize v.boot_record units
      → 0 < units
      → len + 512 * units < 2 ^ 32
      → (len + 512 * units - 1) / (512 * units) ≡ count
      → cluster_count 512 int_13 stack len v ≡ ok count v
  unfolding cluster_count cluster_bytes
  cluster_count_lem len count v g pos small e =
      rw
        (
          get_cluster_size_lem int_13 stack units v g,
          ==_of_gt {a = u32 (units * 512)} {b = 0} (omega (arith, pos, g.small)),
        )
        (ap (λ (n : ℕ). ok n v)
          (ap₂ (λ (a b : ℕ). a / b) (omega (arith, small, g.small, pos)) (omega (arith, g.small))
            ∙ e))

  -- What is the same for both kinds of file.
  load_file-prefix :
      (fuel extension count dest first : ℕ) (v : Volume)
      → HasSize v.boot_record units
      → 0 < units
      → first_cluster v.mem extension ≡ first
      → IsFound v.boot_record units first
      → data_length v.mem extension + 512 * units < 2 ^ 32
      → (data_length v.mem extension + 512 * units - 1) / (512 * units) ≡ count
      → (buffer : Mem) × (word_at buffer (4 * (first % 128)) ≡ fat_word disk v.boot_record first)
        × (load_file 512 int_13 stack fuel extension dest v
            ≡ ((if fat_word disk v.boot_record first == 0
                    then contiguous_loop 512 int_13 stack count 0 first dest
                    else chain_loop 512 int_13 stack fuel 0 first (128 * units) dest buffer)
                  >> pure count)
                v)
  unfolding load_file get_mem word_at
  load_file-prefix fuel extension count dest first v g pos at found small e =
      let b =
        read_buffer-Buffered int_13 stack disk reads (fat_sector v.boot_record first) units v
          (omega (arith, found.reach.fat)) g.small in
      let word =
        buffer-fat_word int_13 stack disk reads first units v
          (read_buffer 512 int_13 stack (fat_sector v.boot_record first) units v) b pos in
      let ids : u32 (512 * units) / 4 ≡ 128 * units = omega (arith, g.small) in
      (
        b.buffer,
        word,
        rw
            (
              get_cluster_size_lem int_13 stack units v g,
              at,
              get_fat_lba_lem int_13 stack first v found.reach,
              b.returns,
              ids,
              fat_entry_lem int_13 stack b.buffer first units v found.reach.to pos found.first,
              word,
              cluster_count_lem (data_length v.mem extension) count v g pos small e,
            )
            refl,
      )

  -- `load_file` puts the clusters of a file, in the order that its run or its chain along the file
  -- allocation table has, at the destination, returns their number, which is the file's length in
  -- clusters rounded up, and changes nothing else. The clusters lie in the first 4 GiB of the disk,
  -- whose sectors have 512 bytes and whose reads succeed, the code finds the entry of each in the
  -- first sector that it reads, there is a round of the loop for each, and the file has fewer than
  -- 2^31 bytes and ends within the address space.
  pub load_file-IsLoaded :
      (fuel extension count dest first : ℕ) (cs : List ℕ) (v : Volume)
      → HasSize v.boot_record units
      → 0 < units
      → first_cluster v.mem extension ≡ first
      → data_length v.mem extension + 512 * units < 2 ^ 32
      → (data_length v.mem extension + 512 * units - 1) / (512 * units) ≡ count
      → IsFile disk units v.boot_record first count cs
      → length cs ≤ fuel
      → 512 * count < 2 ^ 31
      → dest + 512 * units * count ≤ 2 ^ 32
      → IsLoaded disk units count dest cs v (load_file 512 int_13 stack fuel extension dest v)
  load_file-IsLoaded fuel extension count dest first cs v g pos at small e
        (inl (none, found, run, all)) rounds short fits =
      let p = load_file-prefix fuel extension count dest first v g pos at found small e in
      let f =
        contiguous_loop-Followed int_13 stack disk units reads count 0 first first dest v g pos
          (omega arith) (subst (AllInReach v.boot_record) run all) (omega (arith, short))
          (omega (arith, fits)) in
      record {
        memory = f.memory;
        returns = p.2 ∙ rw (==_of_eq none, f.returns) refl;
        clusters =
            subst (HoldsClusters disk v.boot_record units dest f.memory 0) (sym run) f.clusters;
        others = λ a out. f.others a (ground (arith, out, run_bytes (512 * units) 0 first count));
      }
  load_file-IsLoaded fuel extension count dest first cs v g pos at small e
        (inr (rest, split, chain, size)) rounds short fits =
      let linked = subst (IsChain disk v.boot_record units) split chain in
      let found = IsChain-IsFound disk v.boot_record units first rest linked in
      let p = load_file-prefix fuel extension count dest first v g pos at found small e in
      let total : length (first ∷ rest) ≡ count =
        subst (λ (t : List ℕ). length t ≡ count) split size in
      let bytes : 512 * units * (0 + length (first ∷ rest)) ≡ 512 * units * count =
        ap (λ (n : ℕ). 512 * units * n) (omega (arith, total)) in
      let f =
        chain_loop-Followed int_13 stack disk units reads first rest fuel 0 dest p.0 v g pos linked
          (omega (arith, rounds, size, total)) p.1 (omega (arith, fits, bytes)) in
      record {
        memory = f.memory;
        returns =
            p.2
            ∙ rw
                (
                  ==_of_ne (fat_word disk v.boot_record first) 0
                      (chain_entry first rest v.boot_record linked),
                  f.returns,
                )
                refl;
        clusters =
            subst (HoldsClusters disk v.boot_record units dest f.memory 0) (sym split) f.clusters;
        others = λ a out. f.others a (ground (arith, out, bytes));
      }
