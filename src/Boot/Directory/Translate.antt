-- ===== src/Boot/Directory/Translate.antt =====
-- Where the processor finds what an address stands for, with the directory of stage 2.
use loof_os.Base.{
  ℕ, zero, suc, ◌+◌, ◌-◌, ◌*◌, ◌/◌, ◌%◌, ◌^◌, ◌<◌, ◌≤◌, ◌≡◌, ◌⊎◌, inl, inr, refl, ap, ◌∙◌, arith,
  Option, none, some, ◌==◌, ==_of_eq, ◌&&◌, if◌then◌else◌, u32, eq_or_ne,
}
use loof_os.Machine.{Mem, word_at, put_word, Run, ok}
use loof_os.Machine.Words.{put_word_ne, word_at-put_word_self, word_at-same}
use loof_os.PageEntries.{encode_pde_4mib}
use loof_os.Boot.Directory.{kernel_entry, put_entry, map_loop, map_memory}

-- An entry of 4 MiB, present, that may be written, for the kernel alone.
abbrev pub large_page : ℕ → ℕ
large_page i = 131 + i * 4194304

-- The address in physical memory, through a present entry of 4 MiB.
abbrev pub translate : Mem → (dir addr : ℕ) → Option ℕ
translate h dir addr =
    let pde = word_at h (dir + 4 * (addr / 4194304)) in
    if (pde % 2 == 1) && (pde / 128 % 2 == 1)
    then some (pde / 4194304 * 4194304 + addr % 4194304)
    else none

-- The entries from `first + from` on are those of the frames from `from` on.
record Mapped (from to first km : ℕ) (h : Mem) (m : Run Mem (Unit {0})) : Type 0 where
  after : Mem
  returns : m ≡ ok tt after
  entries : (i : ℕ) → from ≤ i → i < to → word_at after (km + 4 * (i + first)) ≡ large_page i
  others : (a : ℕ) → (a < km + 4 * (from + first)) ⊎ (km + 4 * (to + first) ≤ a) → after a ≡ h a

entry_word : (i : ℕ) → i < 1024 → encode_pde_4mib (kernel_entry i) ≡ large_page i
unfolding encode_pde_4mib
entry_word i lt = omega (arith, lt)

entry_place : (km n : ℕ) → n < 1024 → km + 4096 ≤ 2 ^ 32 → u32 (km + 4 * n) ≡ km + 4 * n
entry_place km n lt room = omega (arith, lt, room)

map_loop-Mapped :
    (left i first km : ℕ) (h : Mem)
    → i + left + first ≤ 1024
    → km + 4096 ≤ 2 ^ 32
    → Mapped i (i + left) first km h (map_loop left i first km h)
unfolding map_loop put_entry
map_loop-Mapped zero i first km h count room = record {
  after = h;
  returns = refl;
  entries = λ j from to. absurd (omega (arith, from, to));
  others = λ a out. refl;
}
map_loop-Mapped (suc left) i first km h count room =
    let a = km + 4 * (i + first) in
    let written = put_word h a (large_page i) in
    let rest = map_loop-Mapped left (i + 1) first km written (omega (arith, count)) room in
    record {
      after = rest.after;
      returns =
          rw
            (
              entry_place km (i + first) (omega (arith, count)) room,
              entry_word i (omega (arith, count)),
            )
            rest.returns;
      entries = λ j from to. elim (eq_or_ne j i) [
        | inl e ↦ rw e (
            word_at-same rest.after written a
              (λ x low high. rest.others x (inl (omega (arith, high))))
            ∙ word_at-put_word_self h a (large_page i) (omega (arith, count)))
        | inr ne ↦ rest.entries j (omega (arith, from, ne)) (omega (arith, to))
      ];
      others = λ x out.
          rest.others x (ground (arith, out))
          ∙ put_word_ne h a (large_page i) x (ground (arith, out));
    }

-- The addresses below 3 GiB stand for themselves, those from there on for the first GiB, and nothing
-- outside the directory has changed.
pub record MapsMemory (km : ℕ) (h : Mem) (m : Run Mem (Unit {0})) : Type 0 where
  pub after : Mem
  pub returns : m ≡ ok tt after
  pub linear : (addr : ℕ) → addr < 3 * 2 ^ 30 → translate after km addr ≡ some addr
  pub high :
      (addr : ℕ)
      → 3 * 2 ^ 30 ≤ addr
      → addr < 2 ^ 32
      → translate after km addr ≡ some (addr - 3 * 2 ^ 30)
  pub others : (a : ℕ) → (a < km) ⊎ (km + 4096 ≤ a) → after a ≡ h a

translate-large_page :
    (h : Mem) (km addr i : ℕ)
    → word_at h (km + 4 * (addr / 4194304)) ≡ large_page i
    → translate h km addr ≡ some (i * 4194304 + addr % 4194304)
translate-large_page h km addr i e =
    rw
      (
        e,
        ==_of_eq {a = large_page i % 2} {b = 1} (omega arith),
        ==_of_eq {a = large_page i / 128 % 2} {b = 1} (omega arith),
      )
      (ap (λ (n : ℕ). some (n + addr % 4194304)) (omega arith))

-- `map_memory` fills the directory, whatever was there, so that the processor takes each address
-- below 3 GiB for itself and each from 3 GiB on for the one 3 GiB below, and changes nothing else,
-- where the directory ends within the address space.
pub map_memory-MapsMemory :
    (km : ℕ) (h : Mem) → km + 4096 ≤ 2 ^ 32 → MapsMemory km h (map_memory km h)
unfolding map_memory
map_memory-MapsMemory km h room =
    let low = map_loop-Mapped 768 0 0 km h (omega arith) room in
    let top = map_loop-Mapped 256 0 768 km low.after (omega arith) room in
    record {
      after = top.after;
      returns = rw low.returns top.returns;
      linear = λ addr lt.
          translate-large_page top.after km addr (addr / 4194304) (
            word_at-same top.after low.after (km + 4 * (addr / 4194304))
              (λ x from to. top.others x (inl (omega (arith, lt, to))))
            ∙ ap (word_at low.after) (omega arith)
            ∙ low.entries (addr / 4194304) (omega arith) (omega (arith, lt)))
          ∙ ap (λ (n : ℕ). some n) (omega arith);
      high = λ addr from to.
          translate-large_page top.after km addr (addr / 4194304 - 768) (
            ap (word_at top.after) (omega (arith, from))
            ∙ top.entries (addr / 4194304 - 768) (omega arith) (omega (arith, to)))
          ∙ ap (λ (n : ℕ). some n) (omega (arith, from));
      others = λ a out. top.others a (ground (arith, out)) ∙ low.others a (ground (arith, out));
    }
