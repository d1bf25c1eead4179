-- ===== src/Boot/Bios/Scan.antt =====
-- The address ranges that `bios_mem_scan` collects.
use loof_os.Base.{
  ℕ, zero, suc, ◌+◌, ◌*◌, ◌^◌, ◌<◌, ◌≤◌, ◌≡◌, ◌≢◌, refl, sym, ap, ap₂, ◌∙◌, arith, ◌⊎◌, inl, inr,
  add32-eq-add, ltb_of_lt, ==_of_eq, ==_of_ne, eq_or_ne, if◌then◌else◌, ltb,
}
use loof_os.Machine.{Mem, Cmd, Run, ok}
use loof_os.Boot.Bios.{scan_loop, bios_mem_scan}

-- A call gives `ebx` and the bytes of a range, and changes nothing else.
pub record Described (block : ℕ → ℕ) (ebx edi : ℕ) (h : Mem) (m : Run Mem ℕ) : Type 0 where
  pub after : Mem
  pub returns : m ≡ ok ebx after
  pub bytes : (k : ℕ) → k < 24 → after (edi + k) ≡ block k
  pub others : (a : ℕ) → (a < edi) ⊎ (edi + 24 ≤ a) → after a ≡ h a

-- The ranges are in the buffer, one after the other, and nothing else has changed.
pub record Collected (block : ℕ → ℕ → ℕ) (count buffer : ℕ) (h : Mem) (m : Run Mem ℕ) : Type 0 where
  pub after : Mem
  pub returns : m ≡ ok count after
  pub bytes : (i k : ℕ) → i < count → k < 24 → after (buffer + 24 * i + k) ≡ block i k
  pub others : (a : ℕ) → (a < buffer) ⊎ (buffer + 24 * count ≤ a) → after a ≡ h a

only : (n i : ℕ) → i ≤ n → n < i + 1 → n ≡ i
only n i from to = omega arith

-- A BIOS that describes `total` ranges: `token i` asks for range `i`, the first is 0, and after the
-- last range the answer is 0.
module _ (int_15 : (ebx edi : ℕ) → Cmd Mem ℕ) (total : ℕ) (token : ℕ → ℕ) (block : ℕ → ℕ → ℕ)
    (first : token 0 ≡ 0) (last : token total ≡ 0)
    (between : (i : ℕ) → 0 < i → i < total → token i ≢ 0)
    (describes : (i edi : ℕ) (h : Mem)
      → i < total
      → edi + 24 ≤ 2 ^ 32
      → Described (block i) (token (i + 1)) edi h (int_15 (token i) edi h)) where
  -- From range `i`.
  record CollectedFrom (i count buffer : ℕ) (h : Mem) (m : Run Mem ℕ) : Type 0 where
    after : Mem
    returns : m ≡ ok count after
    bytes : (n k : ℕ) → i ≤ n → n < count → k < 24 → after (buffer + 24 * n + k) ≡ block n k
    others : (a : ℕ) → (a < buffer + 24 * i) ⊎ (buffer + 24 * count ≤ a) → after a ≡ h a

  scan_loop-CollectedFrom :
      (left i length count buffer : ℕ) (h : Mem)
      → i + left ≡ length
      → i < total
      → ((total ≤ length) × (count ≡ total)) ⊎ ((length < total) × (count ≡ length))
      → buffer + 24 * length < 2 ^ 32
      → CollectedFrom i count buffer h
          (scan_loop int_15 left i length (token i) (buffer + 24 * i) h)
  unfolding scan_loop
  scan_loop-CollectedFrom zero i length count buffer h end more which fits = record {
    after = h;
    returns = ap (λ (n : ℕ). ok n h) (ground (arith, which));
    bytes = λ n k from to inside. absurd (ground (arith, which));
    others = λ a out. refl;
  }
  scan_loop-CollectedFrom (suc left) i length count buffer h end more which fits =
      let c = describes i (buffer + 24 * i) h more (omega (arith, end, fits)) in
      elim (eq_or_ne (i + 1) total) [
        | inl e ↦
            let stop : token (i + 1) ≡ 0 = ap token e ∙ last in
            record {
              after = c.after;
              returns =
                  rw (c.returns, ==_of_eq stop)
                    (ap (λ (n : ℕ). ok n c.after) (ground (arith, which)));
              bytes = λ n k from to inside.
                  ap (λ (t : ℕ). c.after (buffer + 24 * t + k))
                    (only n i from (ground (arith, to, e, which)))
                  ∙ c.bytes k inside
                  ∙ ap (λ (t : ℕ). block t k) (sym (only n i from (ground (arith, to, e, which))));
              others = λ a out. c.others a (ground (arith, out, which));
            }
        | inr ne ↦
            let rest =
              scan_loop-CollectedFrom left (i + 1) length count buffer c.after (omega (arith, end))
                (omega (arith, more, ne)) which fits in
            record {
              after = rest.after;
              returns =
                  rw
                    (
                      c.returns,
                      ==_of_ne (token (i + 1)) 0
                          (between (i + 1) (omega arith) (omega (arith, more, ne))),
                      add32-eq-add (buffer + 24 * i) 24 (omega (arith, end, fits)),
                    )
                    (ap (λ (t : ℕ). scan_loop int_15 left (i + 1) length (token (i + 1)) t c.after)
                        (omega arith)
                      ∙ rest.returns);
              bytes = λ n k from to inside. elim (eq_or_ne n i) [
                | inl e ↦
                    rest.others (buffer + 24 * n + k) (inl (omega (arith, e, inside)))
                    ∙ rw e (c.bytes k inside)
                | inr ni ↦ rest.bytes n k (omega (arith, from, ni)) to inside
              ];
              others = λ a out.
                  rest.others a (ground (arith, out))
                  ∙ c.others a (ground (arith, out, which, more, ne, end));
            }
      ]

  -- With a BIOS that describes `total` ranges, at least one, `bios_mem_scan` puts the ranges into
  -- the buffer in their order, as many as there are or as the buffer holds, sets the length to
  -- their number, and changes no other byte, where the buffer ends within the address space.
  pub bios_mem_scan-Collected :
      (buffer length : ℕ) (h : Mem)
      → 0 < total
      → length < 2 ^ 31
      → buffer + 24 * length < 2 ^ 32
      → Collected block
          (if ltb length total then length else total)
          buffer
          h
          (bios_mem_scan int_15 buffer length h)
  unfolding bios_mem_scan
  bios_mem_scan-Collected buffer length h some_range int fits =
      let r =
        scan_loop-CollectedFrom length 0 length (if ltb length total then length else total) buffer
          h (omega arith) some_range (ground arith) fits in
      record {
        after = r.after;
        returns = rw (ltb_of_lt {a = length} {b = 2 ^ 31} int) (
            ap₂ (λ (ebx edi : ℕ). scan_loop int_15 length 0 length ebx edi h) (sym first)
              (omega arith)
            ∙ r.returns);
        bytes = λ i k lt inside. r.bytes i k (omega arith) lt inside;
        others = λ a out. r.others a (ground (arith, out));
      }
