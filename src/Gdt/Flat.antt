-- ===== src/Gdt/Flat.antt =====
-- The segments as the processor reads them.
use loof_os.Base.{
  ℕ, ◌+◌, ◌*◌, ◌/◌, ◌%◌, ◌^◌, ◌≤◌, ◌<◌, ◌≡◌, refl, ◌∙◌, ap₂, ◌⊎◌, inl, arith, add32, ◌==◌,
  if◌then◌else◌,
}
use loof_os.Machine.{Mem, ok, word_at, put_word, write}
use loof_os.Machine.Memory.{write_ne}
use loof_os.Machine.Words.{word_at-same, put_word_ne, word_at-put_word_self, word_at-put_word_ne}
use loof_os.State.{Kernel, store}
use loof_os.Process.{set_tss_stack}
use loof_os.Gdt.{
  SegmentDesc, segment_low, segment_high, null_segment, flat_segment, tss_segment, set_segment,
  store_half, init_gdt,
}

-- The first address, the last offset, the byte of access rights, and the bits for 64-bit code (L)
-- and for 32-bit operands and stack (D/B).
pub record Segment : Type 0 where
  pub base : ℕ
  pub last : ℕ
  pub access : ℕ
  pub long : ℕ
  pub big : ℕ

abbrev pub segment_of : ℕ → ℕ → Segment
segment_of lo hi = record {
  base = lo / 65536 + hi % 256 * 65536 + hi / 16777216 * 16777216;
  last =
      let limit = lo % 65536 + hi / 65536 % 16 * 65536 in
      if hi / 8388608 % 2 == 1 then limit * 4096 + 4095 else limit;
  access = hi / 256 % 256;
  long = hi / 2097152 % 2;
  big = hi / 4194304 % 2;
}

abbrev pub segment_at : Mem → ℕ → Segment
segment_at h a = segment_of (word_at h a) (word_at h (a + 4))

abbrev pub half_at : Mem → ℕ → ℕ
half_at h a = h a + h (a + 1) * 256

module _ (gdt tss : ℕ) (room : gdt + 2048 ≤ 2 ^ 32) where
  abbrev pub segment_mem : ℕ → SegmentDesc → Mem → Mem
  segment_mem i d h =
      put_word (put_word h (gdt + 8 * i) (segment_low d)) (gdt + 8 * i + 4) (segment_high d)

  set_segment_mem :
      (i : ℕ) (d : SegmentDesc) (k : Kernel)
      → i < 256
      → set_segment gdt tss i d k ≡ ok tt (record k { mem = segment_mem i d k.mem })
  unfolding set_segment store
  set_segment_mem i d k lt = rw (second, first) refl
    where
      first : add32 gdt (8 * i) ≡ gdt + 8 * i
      first = omega (arith, lt, room)

      second : add32 (add32 gdt (8 * i)) 4 ≡ gdt + 8 * i + 4
      second = omega (arith, lt, room)

  pub segment_mem_self :
      (i : ℕ) (d : SegmentDesc) (h : Mem)
      → segment_low d < 2 ^ 32
      → segment_high d < 2 ^ 32
      → segment_at (segment_mem i d h) (gdt + 8 * i) ≡ segment_of (segment_low d) (segment_high d)
  segment_mem_self i d h lo hi =
      ap₂ segment_of
        (word_at-put_word_ne (put_word h (gdt + 8 * i) (segment_low d)) (gdt + 8 * i + 4)
            (segment_high d) (gdt + 8 * i) (inl (omega arith))
          ∙ word_at-put_word_self h (gdt + 8 * i) (segment_low d) lo)
        (word_at-put_word_self (put_word h (gdt + 8 * i) (segment_low d)) (gdt + 8 * i + 4)
          (segment_high d) hi)

  pub segment_mem_others :
      (i : ℕ) (d : SegmentDesc) (h : Mem) (x : ℕ)
      → (x < gdt + 8 * i) ⊎ (gdt + 8 * i + 8 ≤ x)
      → segment_mem i d h x ≡ h x
  segment_mem_others i d h x out =
      put_word_ne (put_word h (gdt + 8 * i) (segment_low d)) (gdt + 8 * i + 4) (segment_high d) x
        (ground (arith, out))
      ∙ put_word_ne h (gdt + 8 * i) (segment_low d) x (ground (arith, out))

  segment_at_same :
      (h h' : Mem) (j : ℕ)
      → ((x : ℕ) → gdt + 8 * j ≤ x → x < gdt + 8 * j + 8 → h' x ≡ h x)
      → segment_at h' (gdt + 8 * j) ≡ segment_at h (gdt + 8 * j)
  segment_at_same h h' j same =
      ap₂ segment_of (word_at-same h' h (gdt + 8 * j) (λ x lo hi. same x lo (omega (arith, hi)))) (
        word_at-same h' h (gdt + 8 * j + 4)
          (λ x lo hi. same x (omega (arith, lo)) (omega (arith, hi))))

  -- A later segment leaves an earlier one.
  pub segment_mem_before :
      (i j : ℕ) (d : SegmentDesc) (h : Mem)
      → j < i
      → segment_at (segment_mem i d h) (gdt + 8 * j) ≡ segment_at h (gdt + 8 * j)
  segment_mem_before i j d h lt =
      segment_at_same h (segment_mem i d h) j
        (λ x lo hi. segment_mem_others i d h x (inl (omega (arith, hi, lt))))

  abbrev half_mem : ℕ → ℕ → Mem → Mem
  half_mem a v h = write (write h a (v % 256)) (a + 1) (v / 256 % 256)

  half_mem_others : (a v : ℕ) (h : Mem) (x : ℕ) → (x < a) ⊎ (a + 2 ≤ x) → half_mem a v h x ≡ h x
  half_mem_others a v h x out =
      write_ne (write h a (v % 256)) (a + 1) (v / 256 % 256) x (ground (arith, out))
      ∙ write_ne h a (v % 256) x (ground (arith, out))

  half_mem_self : (a v : ℕ) (h : Mem) → v < 65536 → half_at (half_mem a v h) a ≡ v
  unfolding write
  half_mem_self a v h lt = ground arith

  -- The memory after the first five segments, after the task state segment, and at the end.
  module _ (k : Kernel) where
    abbrev pub one : Mem
    one = segment_mem 0 null_segment k.mem

    abbrev pub two : Mem
    two = segment_mem 1 (flat_segment 1 0) one

    abbrev pub three : Mem
    three = segment_mem 2 (flat_segment 0 0) two

    abbrev pub four : Mem
    four = segment_mem 3 (flat_segment 1 3) three

    abbrev pub five : Mem
    five = segment_mem 4 (flat_segment 0 3) four

    abbrev pub halves : Mem
    halves = half_mem (tss + 102) 108 (half_mem (tss + 8) 0x10 five)

    abbrev pub loaded : Mem
    loaded = segment_mem 5 (tss_segment tss) halves

    pub init_gdt-loaded :
        init_gdt gdt tss k ≡ ok tt (record k { mem = loaded; tss_esp0 = 0xcfff_fffc })
    unfolding init_gdt store_half set_tss_stack
    init_gdt-loaded =
        rw
          (
            set_segment_mem 0 null_segment k (omega arith),
            set_segment_mem 1 (flat_segment 1 0) (record k { mem = one }) (omega arith),
            set_segment_mem 2 (flat_segment 0 0) (record k { mem = two }) (omega arith),
            set_segment_mem 3 (flat_segment 1 3) (record k { mem = three }) (omega arith),
            set_segment_mem 4 (flat_segment 0 3) (record k { mem = four }) (omega arith),
            set_segment_mem 5 (tss_segment tss) (record k { mem = halves; tss_esp0 = 0xcfff_fffc })
                (omega arith),
          )
          refl

    module _ (tss_room : tss + 108 ≤ 2 ^ 32) (apart : (tss + 108 ≤ gdt) ⊎ (gdt + 2048 ≤ tss)) where
      pub halves_others :
          (x : ℕ)
          → (x < tss + 8) ⊎ (tss + 10 ≤ x)
          → (x < tss + 102) ⊎ (tss + 104 ≤ x)
          → halves x ≡ five x
      halves_others x out away =
          half_mem_others (tss + 102) 108 (half_mem (tss + 8) 0x10 five) x (ground (arith, away))
          ∙ half_mem_others (tss + 8) 0x10 five x (ground (arith, out))

      pub late : (j : ℕ) → j < 5 → segment_at loaded (gdt + 8 * j) ≡ segment_at five (gdt + 8 * j)
      late j lt =
          segment_mem_before 5 j (tss_segment tss) halves lt
          ∙ segment_at_same five halves j (λ x lo hi.
            halves_others x (ground (arith, lo, hi, lt, apart)) (ground (arith, lo, hi, lt, apart)))

      past : (x : ℕ) → (x < gdt) ⊎ (gdt + 2048 ≤ x) → loaded x ≡ halves x
      past x out = segment_mem_others 5 (tss_segment tss) halves x (ground (arith, out))

      -- The two halves that are set, as the processor reads them.
      pub stack_half : half_at loaded (tss + 8) ≡ 0x10
      stack_half =
          ap₂ (λ (x y : ℕ). x + y * 256)
            (past (tss + 8) (ground (arith, apart))
              ∙ half_mem_others (tss + 102) 108 (half_mem (tss + 8) 0x10 five) (tss + 8)
                  (inl (omega arith)))
            (past (tss + 8 + 1) (ground (arith, apart))
              ∙ half_mem_others (tss + 102) 108 (half_mem (tss + 8) 0x10 five) (tss + 8 + 1)
                  (inl (omega arith)))
          ∙ half_mem_self (tss + 8) 0x10 five (omega arith)

      pub end_half : half_at loaded (tss + 102) ≡ 108
      end_half =
          ap₂ (λ (x y : ℕ). x + y * 256) (past (tss + 102) (ground (arith, apart)))
            (past (tss + 102 + 1) (ground (arith, apart)))
          ∙ half_mem_self (tss + 102) 108 (half_mem (tss + 8) 0x10 five) (omega arith)

      pub task :
          segment_at loaded (gdt + 8 * 5)
          ≡ record { base = tss; last = 107; access = 0x89; long = 0; big = 1 }
      task = segment_mem_self 5 (tss_segment tss) halves (omega arith) (omega arith) ∙ (λ i.
          record { base = base i; last = last i; access = access i; long = long i; big = big i })
        where
          base :
              (segment_of (segment_low (tss_segment tss)) (segment_high (tss_segment tss))).base
              ≡ tss
          base = omega (arith, tss_room)

          last :
              (segment_of (segment_low (tss_segment tss)) (segment_high (tss_segment tss))).last
              ≡ 107
          last = ground (arith, tss_room)

          access :
              (segment_of (segment_low (tss_segment tss)) (segment_high (tss_segment tss))).access
              ≡ 0x89
          access = omega (arith, tss_room)

          long :
              (segment_of (segment_low (tss_segment tss)) (segment_high (tss_segment tss))).long ≡ 0
          long = omega (arith, tss_room)

          big :
              (segment_of (segment_low (tss_segment tss)) (segment_high (tss_segment tss))).big ≡ 1
          big = omega (arith, tss_room)
