-- ===== src/Boot/Exfat/Sectors.antt =====
-- Where the clusters and the entries of the file allocation table lie, on a disk with sectors of 512
-- bytes, and what the reads of exfat.c find there.
use loof_os.Base.{
  ℕ, ◌+◌, ◌-◌, ◌*◌, ◌/◌, ◌%◌, ◌^◌, ◌<◌, ◌≤◌, ◌≡◌, refl, ap, ◌∙◌, arith, ltb_of_lt, sub32-eq-sub,
  ◌⊎◌,
}
use loof_os.Machine.{Mem, word_at, Run, ok}
use loof_os.Machine.Words.{word_at-same}
use loof_os.Boot.Bios.{BiosDap}
use loof_os.Boot.Bios.Read.{lba_of, bios_ext_read-Loaded}
use loof_os.Boot.Exfat.{
  Volume, fat_offset, cluster_heap_offset, sectors_per_cluster_shift, get_record, shl32, to_sectors,
  get_heap_lba, get_fat_lba, get_cluster_size, in_memory, in_buffer, read_to, read_buffer,
}

-- The first sector of a cluster.
abbrev pub cluster_sector : Mem → ℕ → ℕ
cluster_sector r n = 0x100 + cluster_heap_offset r + (n - 2) * 2 ^ sectors_per_cluster_shift r

-- The sector with a cluster's entry of the file allocation table.
abbrev pub fat_sector : Mem → ℕ → ℕ
fat_sector r n = 0x100 + fat_offset r + n / 128

-- A cluster in the first 4 GiB of the disk, with its entry.
pub record InReach (r : Mem) (n : ℕ) : Type 0 where
  pub from : 2 ≤ n
  pub to : n < 2 ^ 30
  pub heap : cluster_sector r n < 2 ^ 23
  pub fat : fat_sector r n < 2 ^ 23

-- A cluster has this many sectors.
pub record HasSize (r : Mem) (units : ℕ) : Type 0 where
  pub shift : sectors_per_cluster_shift r < 32
  pub power : 2 ^ sectors_per_cluster_shift r ≡ units
  pub small : 512 * units < 2 ^ 31

module _ (int_13 : BiosDap → Mem → Mem) (stack : Mem) where
  to_sectors_lem : (x : ℕ) (v : Volume) → x < 2 ^ 23 → to_sectors 512 int_13 stack x v ≡ ok x v
  unfolding to_sectors
  to_sectors_lem x v lt = ap (λ (n : ℕ). ok n v) (omega (arith, lt))

  pub get_heap_lba_lem :
      (n units : ℕ) (v : Volume)
      → HasSize v.boot_record units
      → InReach v.boot_record n
      → get_heap_lba 512 int_13 stack n v ≡ ok (cluster_sector v.boot_record n) v
  unfolding get_heap_lba get_record shl32
  get_heap_lba_lem n units v g c =
      rw
        (
          ltb_of_lt {a = sectors_per_cluster_shift v.boot_record} {b = 32} g.shift,
          sub32-eq-sub n 2 c.from (omega (arith, c.to)),
        )
        (ap (λ (x : ℕ). to_sectors 512 int_13 stack x v) (omega (arith, c.heap))
          ∙ to_sectors_lem (cluster_sector v.boot_record n) v c.heap)

  pub get_fat_lba_lem :
      (n : ℕ) (v : Volume)
      → InReach v.boot_record n
      → get_fat_lba 512 int_13 stack n v ≡ ok (fat_sector v.boot_record n) v
  unfolding get_fat_lba get_record
  get_fat_lba_lem n v c =
      ap (λ (x : ℕ). to_sectors 512 int_13 stack x v) (omega (arith, c.fat, c.to))
      ∙ to_sectors_lem (fat_sector v.boot_record n) v c.fat

  pub get_cluster_size-many :
      (clusters units : ℕ) (v : Volume)
      → HasSize v.boot_record units
      → 512 * (clusters * units) < 2 ^ 31
      → get_cluster_size 512 int_13 stack clusters v ≡ ok (clusters * units) v
  unfolding get_cluster_size get_record shl32
  get_cluster_size-many clusters units v g small =
      rw (ltb_of_lt {a = sectors_per_cluster_shift v.boot_record} {b = 32} g.shift, g.power)
        (ap (λ (x : ℕ). to_sectors 512 int_13 stack x v) (omega (arith, small))
          ∙ to_sectors_lem (clusters * units) v (omega (arith, small)))

  pub get_cluster_size_lem :
      (units : ℕ) (v : Volume)
      → HasSize v.boot_record units
      → get_cluster_size 512 int_13 stack 1 v ≡ ok units v
  get_cluster_size_lem units v g =
      get_cluster_size-many 1 units v g (omega (arith, g.small))
      ∙ ap (λ (x : ℕ). ok x v) (omega arith)

-- The sectors in memory, and nothing else changed.
pub record Stored (disk : ℕ → ℕ → ℕ) (lba count dest : ℕ) (v : Volume) (m : Run Volume (Unit {0}))
    : Type 0 where
  pub memory : Mem
  pub returns : m ≡ ok tt (record v { mem = memory })
  pub bytes : (n k : ℕ) → n < count → k < 512 → memory (dest + (k + 512 * n)) ≡ disk (lba + n) k
  pub others : (a : ℕ) → (a < dest) ⊎ (dest + 512 * count ≤ a) → memory a ≡ v.mem a

-- The sectors in a buffer.
pub record Buffered (disk : ℕ → ℕ → ℕ) (lba count : ℕ) (v : Volume) (m : Run Volume Mem)
    : Type 0 where
  pub buffer : Mem
  pub returns : m ≡ ok buffer v
  pub bytes : (n k : ℕ) → n < count → k < 512 → buffer (k + 512 * n) ≡ disk (lba + n) k

-- The entry of a cluster in the file allocation table on the disk.
abbrev pub fat_word : (disk : ℕ → ℕ → ℕ) → Mem → ℕ → ℕ
fat_word disk r n = word_at (disk (fat_sector r n)) (4 * (n % 128))

module _ (int_13 : BiosDap → Mem → Mem) (stack : Mem) (disk : ℕ → ℕ → ℕ)
    (reads : (dap : BiosDap) (buffer : Mem) (k : ℕ)
      → k < 512
      → int_13 dap buffer k ≡ disk (lba_of dap) k) where
  pub read_to-Stored :
      (dest lba count : ℕ) (v : Volume)
      → lba < 2 ^ 32
      → 512 * count < 2 ^ 31
      → dest + 512 * count ≤ 2 ^ 32
      → Stored disk lba count dest v (read_to 512 int_13 stack dest lba count v)
  unfolding read_to in_memory
  read_to-Stored dest lba count v low short fits =
      let l =
        bios_ext_read-Loaded 512 int_13 disk reads stack v.mem dest lba count low
          (omega (arith, short)) short fits in
      record { memory = l.after; returns = rw l.returns refl; bytes = l.bytes; others = l.others }

  pub read_buffer-Buffered :
      (lba count : ℕ) (v : Volume)
      → lba < 2 ^ 32
      → 512 * count < 2 ^ 31
      → Buffered disk lba count v (read_buffer 512 int_13 stack lba count v)
  unfolding read_buffer in_buffer
  read_buffer-Buffered lba count v low short =
      let l =
        bios_ext_read-Loaded 512 int_13 disk reads stack stack 0 lba count low
          (omega (arith, short)) short (omega (arith, short)) in
      record {
        buffer = l.after;
        returns = rw l.returns refl;
        bytes = λ n k lt inside. ap l.after (omega arith) ∙ l.bytes n k lt inside;
      }

  -- The entry of a cluster, in a buffer with its sector.
  pub buffer-fat_word :
      (n count : ℕ) (v : Volume) (m : Run Volume Mem)
      → (b : Buffered disk (fat_sector v.boot_record n) count v m) → 0 < count
      → word_at b.buffer (4 * (n % 128)) ≡ fat_word disk v.boot_record n
  buffer-fat_word n count v m b some_sector =
      word_at-same b.buffer (disk (fat_sector v.boot_record n)) (4 * (n % 128)) (λ x from to.
        ap b.buffer (omega arith)
        ∙ b.bytes 0 x some_sector (omega (arith, to))
        ∙ ap (λ (l : ℕ). disk l x) (omega arith))
