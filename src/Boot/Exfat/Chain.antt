-- ===== src/Boot/Exfat/Chain.antt =====
-- Files along the file allocation table.
use native.Mathlib.Nat.{mul-le-mul_left}
use loof_os.Base.{
  ℕ, zero, suc, ◌+◌, ◌*◌, ◌%◌, ◌^◌, ◌<◌, ◌≤◌, ◌≡◌, ◌⊎◌, inl, inr, refl, ◌∙◌, arith, List, [], ◌∷◌,
  length, false, true, ◌||◌, ◌==◌, ==_of_gt, ==_of_lt, leb_of_lt, u32, add32,
}
use loof_os.Machine.{Mem, word_at, Run, ok}
use loof_os.Machine.Ints.{int_rem-pos}
use loof_os.Boot.Bios.{BiosDap}
use loof_os.Boot.Bios.Read.{lba_of, next_start, all_bytes}
use loof_os.Boot.Exfat.{Volume, read_buffer}
use loof_os.Boot.Exfat.File.{fat_entry, chain_loop}
use loof_os.Boot.Exfat.Sectors.{
  cluster_sector, fat_sector, InReach, HasSize, get_heap_lba_lem, get_fat_lba_lem,
  get_cluster_size_lem, fat_word, read_to-Stored, read_buffer-Buffered, buffer-fat_word,
}

-- A cluster whose entry the code finds in the first sector that it reads.
pub record IsFound (r : Mem) (units n : ℕ) : Type 0 where
  pub reach : InReach r n
  pub first : n % (128 * units) ≡ n % 128

-- Clusters along the file allocation table, up to the mark of an end or of a bad cluster.
abbrev pub IsChain : (disk : ℕ → ℕ → ℕ) → Mem → ℕ → List ℕ → Type 0
IsChain disk r units [] = ⊥
IsChain disk r units (c ∷ []) =
    IsFound r units c × ((fat_word disk r c ≡ 0xffff_ffff) ⊎ (fat_word disk r c ≡ 0xffff_fff7))
IsChain disk r units (c ∷ d ∷ cs) =
    IsFound r units c × (fat_word disk r c ≡ d) × IsChain disk r units (d ∷ cs)

-- The clusters' bytes, from place `m` on.
abbrev pub HoldsClusters : (disk : ℕ → ℕ → ℕ) → Mem → (units dest : ℕ) → Mem → ℕ → List ℕ → Type 0
HoldsClusters disk r units dest memory m [] = Unit {0}
HoldsClusters disk r units dest memory m (c ∷ cs) =
    ((n k : ℕ)
      → n < units
      → k < 512
      → memory (dest + 512 * units * m + (k + 512 * n)) ≡ disk (cluster_sector r c + n) k)
    × HoldsClusters disk r units dest memory (m + 1) cs

-- The clusters are in memory from place `m`, one after the other, and nothing else has changed.
pub record Followed (disk : ℕ → ℕ → ℕ) (units m dest : ℕ) (cs : List ℕ) (v : Volume)
    (run : Run Volume (Unit {0})) : Type 0 where
  pub memory : Mem
  pub returns : run ≡ ok tt (record v { mem = memory })
  pub clusters : HoldsClusters disk v.boot_record units dest memory m cs
  pub others :
      (a : ℕ)
      → (a < dest + 512 * units * m) ⊎ (dest + 512 * units * (m + length cs) ≤ a)
      → memory a ≡ v.mem a

pub IsChain-IsFound :
    (disk : ℕ → ℕ → ℕ) (r : Mem) (units c : ℕ) (cs : List ℕ)
    → IsChain disk r units (c ∷ cs)
    → IsFound r units c
IsChain-IsFound disk r units c [] chain = chain.0
IsChain-IsFound disk r units c (d ∷ cs) chain = chain.0

stop_mark :
    (w : ℕ)
    → (w ≡ 0xffff_ffff) ⊎ (w ≡ 0xffff_fff7)
    → ((w == 0xffff_ffff) || (w == 0xffff_fff7)) ≡ true
stop_mark w (inl e) = rw e refl
stop_mark w (inr e) = rw e refl

go_mark : (w : ℕ) → w < 2 ^ 30 → ((w == 0xffff_ffff) || (w == 0xffff_fff7)) ≡ false
go_mark w lt =
    rw
      (
        ==_of_lt {a = w} {b = 0xffff_ffff} (omega (arith, lt)),
        ==_of_lt {a = w} {b = 0xffff_fff7} (omega (arith, lt)),
      )
      refl

pub address : (dest x : ℕ) → dest + x < 2 ^ 32 → add32 dest (u32 x) ≡ dest + x
address dest x lt = omega (arith, lt)

pub chain_bound : (b m len : ℕ) → b * (m + 1) ≤ b * (m + suc len)
chain_bound b m len = mul-le-mul_left b (omega arith)

module _ (int_13 : BiosDap → Mem → Mem) (stack : Mem) where
  pub fat_entry_lem :
      (buffer : Mem) (c units : ℕ) (v : Volume)
      → c < 2 ^ 30
      → 0 < units
      → c % (128 * units) ≡ c % 128
      → fat_entry 512 int_13 stack buffer c (128 * units) v ≡ ok (word_at buffer (4 * (c % 128))) v
  unfolding fat_entry
  fat_entry_lem buffer c units v small pos first =
      rw
        (
          int_rem-pos c (128 * units) (omega (arith, small)),
          first,
          ==_of_gt {a = 128 * units} {b = 0} (omega (arith, pos)),
          leb_of_lt {a = 2 ^ 31} {b = c % 128} (omega arith),
        )
        refl

module _ (int_13 : BiosDap → Mem → Mem) (stack : Mem) (disk : ℕ → ℕ → ℕ) (units : ℕ)
    (reads : (dap : BiosDap) (buffer : Mem) (k : ℕ)
      → k < 512
      → int_13 dap buffer k ≡ disk (lba_of dap) k) where
  -- The last cluster of a chain.
  chain_loop-end :
      (fuel m c dest : ℕ) (buffer : Mem) (v : Volume)
      → HasSize v.boot_record units
      → 0 < units
      → IsFound v.boot_record units c
      → (fat_word disk v.boot_record c ≡ 0xffff_ffff)
        ⊎ (fat_word disk v.boot_record c ≡ 0xffff_fff7)
      → word_at buffer (4 * (c % 128)) ≡ fat_word disk v.boot_record c
      → dest + 512 * units * (m + 1) ≤ 2 ^ 32
      → Followed disk units m dest
          (c ∷ [])
          v
          (chain_loop 512 int_13 stack (suc fuel) m c (128 * units) dest buffer v)
  unfolding chain_loop
  chain_loop-end fuel m c dest buffer v g pos found stop entry fits =
      let step = next_start (512 * units) m in
      let s =
        read_to-Stored int_13 stack disk reads (dest + 512 * units * m)
          (cluster_sector v.boot_record c) units v (omega (arith, found.reach.heap)) g.small
          (omega (arith, step, fits)) in
      let written = record v { mem = s.memory } in
      record {
        memory = s.memory;
        returns =
            rw
              (
                get_cluster_size_lem int_13 stack units v g,
                get_heap_lba_lem int_13 stack c units v g found.reach,
                address dest (512 * units * m) (omega (arith, step, fits)),
                s.returns,
                fat_entry_lem int_13 stack buffer c units written found.reach.to pos found.first,
                entry,
              )
              (rw (stop_mark (fat_word disk v.boot_record c) stop) refl);
        clusters = (λ n k lt inside. s.bytes n k lt inside, tt);
        others = λ a out. s.others a (ground (arith, out, step));
      }

  -- Along a chain of clusters in the first 4 GiB whose entries the code finds, with a round of the
  -- loop for each cluster, `chain_loop` returns with the clusters in memory in the chain's order,
  -- the bytes of each one after the other, and changes nothing else, where they end within the
  -- address space.
  pub chain_loop-Followed :
      (c : ℕ) (cs : List ℕ) (fuel m dest : ℕ) (buffer : Mem) (v : Volume)
      → HasSize v.boot_record units
      → 0 < units
      → IsChain disk v.boot_record units (c ∷ cs)
      → length cs < fuel
      → word_at buffer (4 * (c % 128)) ≡ fat_word disk v.boot_record c
      → dest + 512 * units * (m + length (c ∷ cs)) ≤ 2 ^ 32
      → Followed disk units m dest
          (c ∷ cs)
          v
          (chain_loop 512 int_13 stack fuel m c (128 * units) dest buffer v)
  unfolding chain_loop word_at
  chain_loop-Followed c cs zero m dest buffer v g pos chain enough entry fits =
      absurd (omega (arith, enough))
  chain_loop-Followed c [] (suc fuel) m dest buffer v g pos (found, stop) enough entry fits =
      chain_loop-end fuel m c dest buffer v g pos found stop entry fits
  chain_loop-Followed c (d ∷ cs) (suc fuel) m dest buffer v g pos (found, link, chain) enough entry
        fits =
      let step = next_start (512 * units) m in
      let bound = chain_bound (512 * units) m (suc (length cs)) in
      let s =
        read_to-Stored int_13 stack disk reads (dest + 512 * units * m)
          (cluster_sector v.boot_record c) units v (omega (arith, found.reach.heap)) g.small
          (omega (arith, step, bound, fits)) in
      let written = record v { mem = s.memory } in
      let next = IsChain-IsFound disk v.boot_record units d cs chain in
      let b =
        read_buffer-Buffered int_13 stack disk reads (fat_sector v.boot_record d) units written
          (omega (arith, next.reach.fat)) g.small in
      let total = all_bytes (512 * units) m (suc (length cs)) in
      let rest =
        chain_loop-Followed d cs fuel (m + 1) dest b.buffer written g pos chain
          (omega (arith, enough))
          (buffer-fat_word int_13 stack disk reads d units written
            (read_buffer 512 int_13 stack (fat_sector v.boot_record d) units written) b pos)
          (omega (arith, fits, total)) in
      record {
        memory = rest.memory;
        returns =
            rw
              (
                get_cluster_size_lem int_13 stack units v g,
                get_heap_lba_lem int_13 stack c units v g found.reach,
                address dest (512 * units * m) (omega (arith, step, bound, fits, pos)),
                s.returns,
                fat_entry_lem int_13 stack buffer c units written found.reach.to pos found.first,
                entry,
                link,
                go_mark d next.reach.to,
                get_fat_lba_lem int_13 stack d written next.reach,
                b.returns,
              )
              rest.returns;
        clusters = (
          λ n k lt inside.
              rest.others (dest + 512 * units * m + (k + 512 * n))
                (inl (omega (arith, step, lt, inside)))
              ∙ s.bytes n k lt inside,
          rest.clusters,
        );
        others = λ a out.
            rest.others a (ground (arith, out, step, total))
            ∙ s.others a (ground (arith, out, step, bound));
      }
