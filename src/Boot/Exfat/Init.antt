-- ===== src/Boot/Exfat/Init.antt =====
-- What `init_exfat` takes from the disk.
use loof_os.Base.{
  ℕ, zero, suc, ◌+◌, ◌-◌, ◌*◌, ◌^◌, ◌<◌, ◌≤◌, ◌≡◌, inl, inr, refl, sym, ap, ap₂, subst, ◌∙◌, arith,
  ltb, ltb_of_le, eq_or_ne, ==_of_eq, ==_of_ne, if◌then◌else◌,
}
use loof_os.Machine.{Mem, write, word_at, Run, ok}
use loof_os.Machine.Memory.{write_self, write_ne}
use loof_os.Machine.Words.{word_at-same}
use loof_os.Boot.Bios.{BiosDap}
use loof_os.Boot.Bios.Read.{lba_of}
use loof_os.Boot.Exfat.{
  Volume, root_first_cluster, half_at, first_cluster, get_upcase, set_upcase, set_record,
  to_sectors, upcase_loop, load_upcase, root_loop, init_exfat,
}
use loof_os.Boot.Exfat.Sectors.{
  cluster_sector, InReach, HasSize, get_heap_lba_lem, read_buffer-Buffered,
}

-- `v'` differs in the upcase table alone, whose entries are the old from `from` to the one before `to`.
record Upcases (from to : ℕ) (new : ℕ → ℕ) (v : Volume) (run : Run Volume (Unit {0})) : Type 0 where
  table : ℕ → ℕ
  returns : run ≡ ok tt (record v { upcase_table = table })
  entries : (c : ℕ) → from ≤ c → c < to → table c ≡ new c

upcase_loop-Upcases :
    (left i : ℕ) (v : Volume)
    → ((c : ℕ) → c < i → v.upcase_table c ≡ c)
    → Upcases 0 (i + left) (λ c. c) v (upcase_loop left i v)
unfolding upcase_loop get_upcase set_upcase
upcase_loop-Upcases zero i v before = record {
  table = v.upcase_table;
  returns = refl;
  entries = λ c from to. before c (omega (arith, to));
}
upcase_loop-Upcases (suc left) i v before =
    let next = record v { upcase_table = write v.upcase_table i i } in
    let rest = upcase_loop-Upcases left (i + 1) next (λ c lt. elim (eq_or_ne c i) [
      | inl e ↦ rw e (write_self v.upcase_table i i)
      | inr ne ↦ write_ne v.upcase_table i i c ne ∙ before c (omega (arith, lt, ne))
    ]) in
    record {
      table = rest.table;
      returns = rest.returns;
      entries = λ c from to. rest.entries c from (omega (arith, to));
    }

load_upcase-Upcases :
    (buffer : Mem) (v : Volume) → Upcases 64 128 v.upcase_table v (load_upcase buffer v)
unfolding load_upcase get_upcase set_upcase
load_upcase-Upcases buffer v = record {
  table = λ i. if ltb i 64 then half_at buffer (2 * i) else v.upcase_table i;
  returns = refl;
  entries = λ c from to. rw (ltb_of_le {a = c} {b = 64} from) refl;
}

-- The boot record of the disk, and the upper half of the default table.
pub record Initialised (disk : ℕ → ℕ → ℕ) (v : Volume) (run : Run Volume (Unit {0})) : Type 0 where
  pub after : Volume
  pub returns : run ≡ ok tt after
  pub record_bytes : (k : ℕ) → k < 512 → after.boot_record k ≡ disk 0x100 k
  pub letters : (c : ℕ) → 64 ≤ c → c < 128 → after.upcase_table c ≡ c
  pub memory : after.mem ≡ v.mem

-- With the volume's boot record in sector 0x100.
pub record HasRoot (disk : ℕ → ℕ → ℕ) (units : ℕ) : Type 0 where
  pub size : HasSize (disk 0x100) units
  pub root : InReach (disk 0x100) (root_first_cluster (disk 0x100))
  pub upcase :
      (e : ℕ)
      → e < 16
      → disk (cluster_sector (disk 0x100) (root_first_cluster (disk 0x100))) (32 * e) ≡ 0x82
      → InReach (disk 0x100) (
          first_cluster
            (disk (cluster_sector (disk 0x100) (root_first_cluster (disk 0x100))))
            (32 * e))

module _ (int_13 : BiosDap → Mem → Mem) (stack : Mem) (disk : ℕ → ℕ → ℕ)
    (reads : (dap : BiosDap) (buffer : Mem) (k : ℕ)
      → k < 512
      → int_13 dap buffer k ≡ disk (lba_of dap) k) where
  root_loop-Upcases :
      (left m units : ℕ) (buffer : Mem) (v : Volume)
      → HasSize v.boot_record units
      → ((e : ℕ)
          → e < m + left
          → buffer (32 * e) ≡ 0x82
          → InReach v.boot_record (first_cluster buffer (32 * e)))
      → Upcases 64 128 v.upcase_table v (root_loop 512 int_13 stack left (32 * m) buffer v)
  unfolding root_loop
  root_loop-Upcases zero m units buffer v g reach = record {
    table = v.upcase_table;
    returns = refl;
    entries = λ c from to. refl;
  }
  root_loop-Upcases (suc left) m units buffer v g reach = elim (eq_or_ne (buffer (32 * m)) 0x82) [
    | inl e ↦
        let at = reach m (omega arith) e in
        let b =
          read_buffer-Buffered int_13 stack disk reads
            (cluster_sector v.boot_record (first_cluster buffer (32 * m))) 1 v
            (omega (arith, at.heap)) (omega arith) in
        rw
          (
            ==_of_eq e,
            get_heap_lba_lem int_13 stack (first_cluster buffer (32 * m)) units v g at,
            b.returns,
          )
          (load_upcase-Upcases b.buffer v)
    | inr ne ↦ rw (==_of_ne (buffer (32 * m)) 0x82 ne) (
        subst
          (λ (i : ℕ). Upcases 64 128 v.upcase_table v (root_loop 512 int_13 stack left i buffer v))
          (omega arith)
          (root_loop-Upcases left (m + 1) units buffer v g (λ e lt. reach e (omega (arith, lt)))))
  ]

  -- A buffer with the boot record is as good as the disk's.
  module _ (r : Mem) (same : (k : ℕ) → k < 512 → r k ≡ disk 0x100 k) where
    field : (a : ℕ) → a + 4 ≤ 512 → word_at r a ≡ word_at (disk 0x100) a
    field a fits = word_at-same r (disk 0x100) a (λ x from to. same x (omega (arith, to, fits)))

    same-HasSize : (units : ℕ) → HasSize (disk 0x100) units → HasSize r units
    same-HasSize units g =
        let shift = same 109 (omega arith) in
        record {
          shift = omega (arith, shift, g.shift);
          power = ap (λ (s : ℕ). 2 ^ s) shift ∙ g.power;
          small = g.small;
        }

    sector_same : (n : ℕ) → cluster_sector r n ≡ cluster_sector (disk 0x100) n
    sector_same n =
        ap₂ (λ (heap s : ℕ). 0x100 + heap + (n - 2) * 2 ^ s) (field 88 (omega arith))
          (same 109 (omega arith))

    same-InReach : (n : ℕ) → InReach (disk 0x100) n → InReach r n
    same-InReach n c = record {
      from = c.from;
      to = c.to;
      heap = omega (arith, sector_same n, c.heap);
      fat = omega (arith, field 80 (omega arith), c.fat);
    }

  -- On a disk of sectors of 512 bytes whose reads succeed, with a boot record in sector 0x100 whose
  -- root directory and upcase table lie in the first 4 GiB, `init_exfat` returns with the record,
  -- changes no memory, and leaves the upper half of the upcase table, with all the letters, as the
  -- identity, whatever table the volume has.
  pub init_exfat-Initialised :
      (units : ℕ) (v : Volume)
      → HasRoot disk units
      → Initialised disk v (init_exfat 512 int_13 stack v)
  unfolding init_exfat set_record to_sectors
  init_exfat-Initialised units v h =
      let b = read_buffer-Buffered int_13 stack disk reads 0x100 1 v (omega arith) (omega arith) in
      let r = b.buffer in
      let same : (k : ℕ) → k < 512 → r k ≡ disk 0x100 k =
        λ k lt. ap r (omega arith) ∙ b.bytes 0 k (omega arith) lt in
      let root = root_first_cluster (disk 0x100) in
      let at = same-InReach r same root h.root in
      let g = same-HasSize r same units h.size in
      let with_record = record v { boot_record = r } in
      let u = upcase_loop-Upcases 128 0 with_record (λ c lt. absurd (omega (arith, lt))) in
      let reset = record with_record { upcase_table = u.table } in
      let d =
        read_buffer-Buffered int_13 stack disk reads (cluster_sector r root) 1 reset
          (omega (arith, at.heap)) (omega arith) in
      let dir : (k : ℕ) → k < 512 → d.buffer k ≡ disk (cluster_sector (disk 0x100) root) k = λ k lt.
        ap d.buffer (omega arith)
        ∙ d.bytes 0 k (omega arith) lt
        ∙ ap (λ (l : ℕ). disk l k) (omega (arith, sector_same r same root)) in
      let l = root_loop-Upcases 16 0 units d.buffer reset g (λ e lt mark.
        subst (InReach r)
          (sym (
            word_at-same d.buffer (disk (cluster_sector (disk 0x100) root)) (32 * e + 20)
              (λ x from to. dir x (omega (arith, lt, to)))))
          (same-InReach r same (first_cluster (disk (cluster_sector (disk 0x100) root)) (32 * e))
            (h.upcase e (omega (arith, lt)) (sym (dir (32 * e) (omega (arith, lt))) ∙ mark)))) in
      record {
        after = record reset { upcase_table = l.table };
        returns =
            rw
              (
                b.returns,
                u.returns,
                field r same 96 (omega arith),
                get_heap_lba_lem int_13 stack root units reset g at,
                d.returns,
              )
              l.returns;
        record_bytes = same;
        letters = λ c from to. l.entries c from to ∙ u.entries c (omega arith) (omega (arith, to));
        memory = refl;
      }
