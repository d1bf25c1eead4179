-- ===== src/Idt/Gate.antt =====
-- What `set_id` makes of the interrupt descriptor table.
use loof_os.Base.{ℕ, ◌+◌, ◌*◌, ◌/◌, ◌%◌, ◌^◌, ◌≤◌, ◌<◌, ◌≡◌, refl, ◌∙◌, ap₂, ◌⊎◌, inl, arith, add32}
use loof_os.Machine.{Mem, Run, ok, undefined, out_of_fuel, word_at, put_word}
use loof_os.Machine.Words.{put_word_ne, word_at-put_word_self, word_at-put_word_ne}
use loof_os.State.{Kernel, store}
use loof_os.Idt.{low_word, high_word, descriptor, set_id}

-- A descriptor as the processor reads it from its two words. It is a gate only with `s` 0: with 1
-- the type is that of a code or data segment.
pub record Gate : Type 0 where
  pub handler : ℕ
  pub selector : ℕ
  pub type : ℕ
  pub s : ℕ
  pub dpl : ℕ
  pub present : ℕ

abbrev pub gate_of : ℕ → ℕ → Gate
gate_of lo hi = record {
  handler = hi / 65536 * 65536 + lo % 65536;
  selector = lo / 65536;
  type = hi / 256 % 16;
  s = hi / 4096 % 2;
  dpl = hi / 8192 % 4;
  present = hi / 32768 % 2;
}

abbrev pub gate_at : Mem → ℕ → Gate
gate_at h a = gate_of (word_at h a) (word_at h (a + 4))

gate-descriptor :
    (offset selector type dpl present : ℕ)
    → offset < 2 ^ 32
    → selector < 2 ^ 16
    → type < 16
    → dpl < 4
    → present < 2
    → gate_of
        (low_word (descriptor offset selector type dpl present))
        (high_word (descriptor offset selector type dpl present))
      ≡ record {
        handler = offset;
        selector = selector;
        type = type;
        s = 0;
        dpl = dpl;
        present = present;
      }
unfolding descriptor low_word high_word
gate-descriptor offset selector type dpl present o s t d p = λ i. record {
  handler = handler i;
  selector = sel i;
  type = kind i;
  s = system i;
  dpl = ring i;
  present = bit i;
}
  where
    lo : ℕ
    lo = low_word (descriptor offset selector type dpl present)

    hi : ℕ
    hi = high_word (descriptor offset selector type dpl present)

    handler : hi / 65536 * 65536 + lo % 65536 ≡ offset
    handler = omega (arith, o)

    sel : lo / 65536 ≡ selector
    sel = omega (arith, s)

    kind : hi / 256 % 16 ≡ type
    kind = omega (arith, t)

    system : hi / 4096 % 2 ≡ 0
    system = omega arith

    ring : hi / 8192 % 4 ≡ dpl
    ring = omega (arith, d)

    bit : hi / 32768 % 2 ≡ present
    bit = omega (arith, p)

word-lt :
    (offset selector type dpl present : ℕ)
    → (low_word (descriptor offset selector type dpl present) < 2 ^ 32)
      × (high_word (descriptor offset selector type dpl present) < 2 ^ 32)
unfolding descriptor low_word high_word
word-lt offset selector type dpl present = (omega arith, omega arith)

-- The descriptor at `a` is `gate`, and nothing else has changed.
pub record Installed (a : ℕ) (gate : Gate) (k k' : Kernel) : Type 0 where
  pub reads : gate_at k'.mem a ≡ gate
  pub others : (x : ℕ) → (x < a) ⊎ (a + 8 ≤ x) → k'.mem x ≡ k.mem x
  pub same : k' ≡ record k { mem = k'.mem }

abbrev pub Installs : ℕ → Gate → Kernel → Run Kernel (Unit {0}) → Type 0
Installs a gate k (ok _ k') = Installed a gate k k'
Installs a gate k undefined = ⊥
Installs a gate k out_of_fuel = ⊥

pub Installed-of_Installs :
    (a : ℕ) (gate : Gate) (k : Kernel) (r : Run Kernel (Unit {0}))
    → Installs a gate k r
    → (k' : Kernel) × (r ≡ ok tt k') × Installed a gate k k'
Installed-of_Installs a gate k (ok _ k') i = (k', refl, i)
Installed-of_Installs a gate k undefined i = absurd i
Installed-of_Installs a gate k out_of_fuel i = absurd i

module _ (pos offset selector type dpl present : ℕ) (k : Kernel) (small : pos < 256)
    (room : k.idt + 2048 ≤ 2 ^ 32) where
  abbrev lo : ℕ
  lo = low_word (descriptor offset selector type dpl present)

  abbrev hi : ℕ
  hi = high_word (descriptor offset selector type dpl present)

  abbrev written : Mem
  written = put_word (put_word k.mem (k.idt + 8 * pos) lo) (k.idt + 8 * pos + 4) hi

  set_id-written :
      set_id pos offset selector type dpl present k ≡ ok tt (record k { mem = written })
  unfolding set_id store
  set_id-written = rw (second, first) refl
    where
      first : add32 k.idt (8 * pos) ≡ k.idt + 8 * pos
      first = omega (arith, small, room)

      second : add32 (add32 k.idt (8 * pos)) 4 ≡ k.idt + 8 * pos + 4
      second = omega (arith, small, room)

  -- For a position of the table and arguments that fit their fields, with the table within the
  -- address space: `set_id` returns, the processor reads at that position a gate to the handler with
  -- these fields (a system descriptor, `s` 0), and nothing changes outside its eight bytes.
  pub set_id-Installs :
      offset < 2 ^ 32
      → selector < 2 ^ 16
      → type < 16
      → dpl < 4
      → present < 2
      → Installs
          (k.idt + 8 * pos)
          (record {
            handler = offset;
            selector = selector;
            type = type;
            s = 0;
            dpl = dpl;
            present = present;
          })
          k
          (set_id pos offset selector type dpl present k)
  set_id-Installs o s t d p = rw set_id-written (record {
    reads =
        ap₂ gate_of
          (word_at-put_word_ne (put_word k.mem (k.idt + 8 * pos) lo) (k.idt + 8 * pos + 4) hi
              (k.idt + 8 * pos) (inl (omega arith))
            ∙ word_at-put_word_self k.mem (k.idt + 8 * pos) lo
                (word-lt offset selector type dpl present).0)
          (word_at-put_word_self (put_word k.mem (k.idt + 8 * pos) lo) (k.idt + 8 * pos + 4) hi
            (word-lt offset selector type dpl present).1)
        ∙ gate-descriptor offset selector type dpl present o s t d p;
    others = λ x out.
        put_word_ne (put_word k.mem (k.idt + 8 * pos) lo) (k.idt + 8 * pos + 4) hi x
          (ground (arith, out))
        ∙ put_word_ne k.mem (k.idt + 8 * pos) lo x (ground (arith, out));
    same = refl;
  })
