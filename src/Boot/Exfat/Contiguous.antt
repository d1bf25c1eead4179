-- ===== src/Boot/Exfat/Contiguous.antt =====
-- Files whose clusters are one run.
use native.Mathlib.Nat.{mul_right_comm}
use loof_os.Base.{
  ℕ, zero, suc, ◌+◌, ◌*◌, ◌^◌, ◌<◌, ◌≤◌, ◌≡◌, inl, refl, ap, ◌∙◌, arith, List, [], ◌∷◌, length,
}
use loof_os.Machine.{Mem}
use loof_os.Machine.Ints.{int_add-pos, int_mul-pos}
use loof_os.Boot.Bios.{BiosDap}
use loof_os.Boot.Bios.Read.{lba_of, next_start, all_bytes}
use loof_os.Boot.Exfat.{Volume}
use loof_os.Boot.Exfat.File.{contiguous_loop}
use loof_os.Boot.Exfat.Sectors.{
  cluster_sector, InReach, HasSize, get_heap_lba_lem, get_cluster_size_lem, read_to-Stored,
}
use loof_os.Boot.Exfat.Chain.{Followed, address, chain_bound}

-- `count` clusters in a run.
abbrev pub run_of : (first count : ℕ) → List ℕ
run_of first zero = []
run_of first (suc count) = first ∷ run_of (first + 1) count

length-run_of : (first count : ℕ) → length (run_of first count) ≡ count
length-run_of first zero = refl
length-run_of first (suc count) = ap suc (length-run_of (first + 1) count)

abbrev pub AllInReach : Mem → List ℕ → Type 0
AllInReach r [] = Unit {0}
AllInReach r (c ∷ cs) = InReach r c × AllInReach r cs

-- The bytes of a run.
pub run_bytes : (b j c count : ℕ) → b * (j + length (run_of c count)) ≡ b * (j + count)
run_bytes b j c count = ap (λ (n : ℕ). b * (j + n)) (length-run_of c count)

module _ (int_13 : BiosDap → Mem → Mem) (stack : Mem) (disk : ℕ → ℕ → ℕ) (units : ℕ)
    (reads : (dap : BiosDap) (buffer : Mem) (k : ℕ)
      → k < 512
      → int_13 dap buffer k ≡ disk (lba_of dap) k) where
  pub contiguous_loop-Followed :
      (left j c first dest : ℕ) (v : Volume)
      → HasSize v.boot_record units
      → 0 < units
      → first + j ≡ c
      → AllInReach v.boot_record (run_of c left)
      → 512 * (j + left) < 2 ^ 31
      → dest + 512 * units * (j + left) ≤ 2 ^ 32
      → Followed disk units j dest
          (run_of c left)
          v
          (contiguous_loop 512 int_13 stack left j first dest v)
  unfolding contiguous_loop
  contiguous_loop-Followed zero j c first dest v g pos at all short fits = record {
    memory = v.mem;
    returns = refl;
    clusters = tt;
    others = λ a out. refl;
  }
  contiguous_loop-Followed (suc left) j c first dest v g pos at (reach, all) short fits =
      let b = 512 * units in
      let step = next_start b j in
      let bound = chain_bound b j left in
      let total = all_bytes b j left in
      let s =
        read_to-Stored int_13 stack disk reads (dest + b * j) (cluster_sector v.boot_record c) units
          v (omega (arith, reach.heap)) g.small (omega (arith, step, bound, fits)) in
      let written = record v { mem = s.memory } in
      let rest =
        contiguous_loop-Followed left (j + 1) (c + 1) first dest written g pos (omega (arith, at))
          all (omega (arith, short)) (omega (arith, fits, total)) in
      record {
        memory = rest.memory;
        returns =
            rw
              (
                get_cluster_size_lem int_13 stack units v g,
                int_mul-pos 512 j v (omega (arith, short)) (omega (arith, short)),
                int_add-pos first j v (omega (arith, at, reach.to)),
                at,
                get_heap_lba_lem int_13 stack c units v g reach,
                mul_right_comm 512 j units,
                address dest (b * j) (omega (arith, step, bound, fits, pos)),
                s.returns,
              )
              rest.returns;
        clusters = (
          λ n k lt inside.
              rest.others (dest + b * j + (k + 512 * n)) (inl (omega (arith, step, lt, inside)))
              ∙ s.bytes n k lt inside,
          rest.clusters,
        );
        others = λ a out.
            rest.others a (
              ground (
                arith,
                out,
                step,
                total,
                run_bytes b (j + 1) (c + 1) left,
                run_bytes b j c (suc left),
              ))
            ∙ s.others a (ground (arith, out, step, bound, run_bytes b j c (suc left)));
      }
