-- ===== src/Alloc/Split.antt =====
-- `split_block` and the loop that calls it.
use loof_os.Base.{
  ℕ, zero, suc, ◌+◌, ◌*◌, ◌/◌, ◌%◌, ◌^◌, ◌≤◌, ◌<◌, ◌≡◌, inr, refl, sym, ◌∙◌, ap, false, [], ◌∷◌,
  arith, ltb_of_lt, ltb_of_le, pow-suc, add32, sub32,
}
use loof_os.Machine.{Mem, write, Run, ok, ◌>>◌}
use loof_os.Machine.Memory.{write_self, write_ne, write-write, bit32-ok}
use loof_os.Alloc.{get_size, set_size, set_used, split_block, split_loop}
use loof_os.Alloc.Blocks.{block, Tiles, SameOutside, pieces, one-le-two_pow, Tiles-append}

-- The memory after a split of the block at `a` into two of size `s`.
abbrev pub split_mem : Mem → ℕ → ℕ → Mem
split_mem h a s = write (write h (a + 2 ^ s) s) a s

pub fresh_value : (v s : ℕ) → s < 128 → 0 * 128 + (v / 128 % 2 * 128 + s % 128) % 128 ≡ s
fresh_value v s p = omega arith

-- The two assignments to a new header leave no bit of the old one.
pub fresh_header :
    (h : Mem) (a s : ℕ) → s < 128 → (set_size a s >> set_used a 0) h ≡ ok tt (write h a s)
unfolding set_size set_used
fresh_header h a s small =
    rw (write_self, write-write) (ap (λ v. ok tt (write h a v)) (fresh_value (h a) s small))

-- The header that a write of `size` to an unused block leaves.
pub clear_header : (v s : ℕ) → v < 128 → s < 128 → v / 128 % 2 * 128 + s % 128 ≡ s
clear_header v s p q = omega arith

module _ (h : Mem) (a s : ℕ) (unused : h a ≡ suc s) (small : s < 31)
    (room : a + 2 ^ suc s < 2 ^ 32) where
  size_now : sub32 (h a % 128) 1 ≡ s
  size_now = omega arith

  buddy_at : add32 a (2 ^ s) ≡ a + 2 ^ s
  buddy_at = omega (arith, pow-suc 2 s, one-le-two_pow s)

  kept_header : write h (a + 2 ^ s) s a ≡ suc s
  kept_header = rw (write_ne h (a + 2 ^ s) s a (omega (arith, one-le-two_pow s))) unused

  pub split_block-ok : split_block a h ≡ ok tt (split_mem h a s)
  unfolding split_block get_size set_size set_used
  split_block-ok =
      rw (size_now, bit32-ok s h (omega arith), buddy_at, write_self, write-write)
        (rw (fresh_value (h (a + 2 ^ s)) s (omega arith), kept_header)
          (rw (clear_header (suc s) s (omega arith) (omega arith)) refl))

  -- The lower half keeps its place, its buddy stands behind it, and nothing else changes.
  pub split_block-Tiles :
      3 ≤ s → Tiles (split_mem h a s) a (block s false ∷ block s false ∷ []) (a + 2 ^ suc s)
  split_block-Tiles large = (
    write_self _ a s,
    large,
    omega arith,
    (
      write_ne _ a s (a + 2 ^ s) (omega (arith, one-le-two_pow s)) ∙ write_self h (a + 2 ^ s) s,
      large,
      omega arith,
      omega (arith, pow-suc 2 s),
    ),
  )

  pub split_block-SameOutside : SameOutside a (a + 2 ^ suc s) h (split_mem h a s)
  split_block-SameOutside x out =
      write_ne _ a s x (ground (arith, pow-suc 2 s, one-le-two_pow s))
      ∙ write_ne h (a + 2 ^ s) s x (ground (arith, pow-suc 2 s, one-le-two_pow s))

-- The loop, `k` rounds before the size is `n`.
pub record Split (h : Mem) (a n k : ℕ) (r : Run Mem (Unit {0})) : Type 0 where
  pub after : Mem
  pub returns : r ≡ ok tt after
  pub tiles : Tiles after a (block n false ∷ pieces n k) (a + 2 ^ (n + k))
  pub same : SameOutside a (a + 2 ^ (n + k)) h after

module _ (h : Mem) (a n k : ℕ) (large : 3 ≤ n) (small : n + suc k < 32) (unused : h a ≡ n + suc k)
    (room : a + 2 ^ (n + suc k) < 2 ^ 32) where
  abbrev next : Mem
  next = split_mem h a (n + k)

  width : 2 ^ (n + suc k) ≡ 2 ^ suc (n + k)
  width = ap (λ s. 2 ^ s) (omega arith)

  split_round : (fuel : ℕ) → split_loop (suc fuel) a n h ≡ split_loop fuel a n next
  unfolding split_loop get_size
  split_round fuel =
      rw
        (
          ltb_of_lt {a = n} {b = h a % 128} (omega arith),
          split_block-ok h a (n + k) (omega arith) (omega arith) (omega (arith, width)),
        )
        refl

  Split-round :
      (fuel : ℕ)
      → Split next a n k (split_loop fuel a n next)
      → Split h a n (suc k) (split_loop (suc fuel) a n h)
  unfolding pieces
  Split-round fuel rest = record {
    after = rest.after;
    returns = split_round fuel ∙ rest.returns;
    tiles =
        Tiles-append rest.after a (block n false ∷ pieces n k) (a + 2 ^ (n + k))
          (block (n + k) false ∷ []) (a + 2 ^ (n + suc k)) rest.tiles
          (
            rest.same (a + 2 ^ (n + k)) (inr (omega arith)) ∙ halves.3.0,
            halves.3.1,
            halves.3.2,
            halves.3.3 ∙ ap (λ w. a + w) (sym width),
          );
    same = λ x out.
        rest.same x (ground (arith, width, pow-suc 2 (n + k)))
        ∙ split_block-SameOutside h a (n + k) (omega arith) (omega arith) (omega (arith, width)) x
            (ground (arith, width));
  }
    where
      halves : Tiles next a (block (n + k) false ∷ block (n + k) false ∷ []) (a + 2 ^ suc (n + k))
      halves =
          split_block-Tiles h a (n + k) (omega arith) (omega arith) (omega (arith, width))
            (omega arith)

pub split_loop-Split :
    (fuel k : ℕ) (h : Mem) (a n : ℕ)
    → k < fuel
    → 3 ≤ n
    → n + k < 32
    → h a ≡ n + k
    → a + 2 ^ (n + k) < 2 ^ 32
    → Split h a n k (split_loop fuel a n h)
unfolding split_loop get_size pieces
split_loop-Split zero k h a n fuel large small unused room = absurd (omega arith)
split_loop-Split (suc f) zero h a n fuel large small unused room = record {
  after = h;
  returns = rw (ltb_of_le {a = n} {b = h a % 128} (omega arith));
  tiles = (omega arith, large, omega arith, ap (λ s. a + 2 ^ s) (omega arith));
  same = λ x out. refl;
}
split_loop-Split (suc f) (suc k) h a n fuel large small unused room =
    Split-round h a n k large small unused room f (
      split_loop-Split f k (split_mem h a (n + k)) a n (omega arith) large (omega arith)
        (write_self _ a (n + k))
        (omega (arith, width h a n k large small unused room, pow-suc 2 (n + k))))
