-- ===== src/Alloc/Search.antt =====
-- `memory_allocate`: the search for a block and what it does with it.
use mathlib.Core.Option
use loof_os.Base.{
  ℕ, zero, suc, ◌+◌, ◌-◌, ◌^◌, ◌≤◌, ◌<◌, ◌≡◌, inl, inr, refl, ◌∙◌, ap₂, true, false, Option, none,
  some, List, [], ◌∷◌, ◌++◌, arith, leb_of_le, leb_of_lt, Bool-cases, lt_cases, add32-eq-add,
}
use loof_os.Machine.{Mem, write, Run, ok}
use loof_os.Machine.Memory.{write_self, write_ne, bit32-ok}
use loof_os.Alloc.{get_size, get_used, set_used, split_loop, take_block, search_loop}
use loof_os.Alloc.Blocks.{
  Block, block, header, header_size, header_used, Tiles, SameOutside, pieces, Fit, behind, fits,
  first_fit, one-le-two_pow, Tiles-le, Tiles-frame, Tiles-append,
}
use loof_os.Alloc.Split.{Split, split_loop-Split}

-- The outcome of `take_block` at an unused block of size `s`.
record Taken (h : Mem) (a n s : ℕ) (r : Run Mem ℕ) : Type 0 where
  after : Mem
  returns : r ≡ ok (a + 1) after
  tiles : Tiles after a (block n true ∷ pieces n (s - n)) (a + 2 ^ s)
  same : SameOutside a (a + 2 ^ s) h after

module _ (h : Mem) (a n s : ℕ) (large : 3 ≤ n) (fit : n ≤ s) (small : s < 32) (unused : h a ≡ s)
    (room : a + 2 ^ s < 2 ^ 32) where
  whole : n + (s - n) ≡ s
  whole = omega arith

  Taken-of_Split : Split h a n (s - n) (split_loop 128 a n h) → Taken h a n s (take_block a n h)
  unfolding take_block set_used
  Taken-of_Split split = record {
    after = write split.after a (128 + n);
    returns = rw split.returns (
        ap₂ (λ p v. ok p (write split.after a v))
          (add32-eq-add a 1 (omega (arith, one-le-two_pow s))) (omega (arith, split.tiles.0)));
    tiles = (
      write_self split.after a (128 + n),
      large,
      omega arith,
      Tiles-frame split.after _ (a + 2 ^ n) (pieces n (s - n)) (a + 2 ^ s)
          (rw whole at split.tiles.3)
          (λ x p q. write_ne split.after a (128 + n) x (omega (arith, one-le-two_pow n))),
    );
    same = λ x out.
        write_ne split.after a (128 + n) x (ground (arith, one-le-two_pow s))
        ∙ split.same x (rw whole out);
  }

  take_block-Taken : Taken h a n s (take_block a n h)
  take_block-Taken = Taken-of_Split (
      split_loop-Split 128 (s - n) h a n (omega arith) large (omega arith) (omega arith)
        (rw whole room))

-- A search from `a` that ends at the block of `f`: what it returns, the blocks from `a` on
-- afterwards, and that it changes nothing outside the block that it took.
pub record Placed (h : Mem) (a e : ℕ) (f : Fit) (r : Run Mem ℕ) : Type 0 where
  pub after : Mem
  pub returns : r ≡ ok (f.address + 1) after
  pub tiles : Tiles after a f.blocks e
  pub same : SameOutside f.address (f.address + 2 ^ f.found) h after
  pub inside : (a ≤ f.address) × (f.address + 2 ^ f.found ≤ e)

-- The contract of a search: the null pointer and no change where nothing fits.
abbrev pub Searched : Mem → ℕ → ℕ → Option Fit → Run Mem ℕ → Type 0
Searched h a e none r = r ≡ ok 0 h
Searched h a e (some f) r = Placed h a e f r

-- The bytes behind the last block read as headers of size 0.
abbrev pub IsQuiet : Mem → ℕ → ℕ → Type 0
IsQuiet h e last = (x : ℕ) → e ≤ x → x ≤ last → h x ≡ 0

module _ (h : Mem) (last n : ℕ) (large : 3 ≤ n) (room : last + 1 < 2 ^ 32) where
  search_tail :
      (fuel a : ℕ)
      → last + 2 ≤ fuel + a
      → a ≤ last + 1
      → IsQuiet h a last
      → search_loop fuel last n a h ≡ ok 0 h
  unfolding search_loop get_size get_used
  search_tail zero a enough low quiet = absurd (omega arith)
  search_tail (suc f) a enough low quiet = elim (lt_cases last a) [
    | inl past ↦ rw (leb_of_lt past)
    | inr here ↦
        rw (leb_of_le here, quiet a (omega arith) here, leb_of_lt {a = n} {b = 0} (omega arith))
          (rw (bit32-ok 0 h (omega arith), add32-eq-add a 1 (omega arith))
            (search_tail f (a + 1) (omega arith) (omega arith) (λ x p q. quiet x (omega arith) q)))
  ]

  -- A block that does not fit is passed over.
  search_skip :
      (b : Block) (f a : ℕ)
      → h a ≡ header b
      → b.size < 32
      → fits n b ≡ false
      → a + 2 ^ b.size ≤ last + 1
      → search_loop (suc f) last n a h ≡ search_loop f last n (a + 2 ^ b.size) h
  unfolding search_loop get_size get_used
  search_skip b f a head small miss below =
      rw
        (
          leb_of_le {a = a} {b = last} (omega (arith, one-le-two_pow b.size)),
          head,
          header_size b small,
          header_used b small,
          miss,
          bit32-ok b.size h small,
          add32-eq-add a (2 ^ b.size) (omega arith),
        )
        refl

  search_take :
      (b : Block) (f a : ℕ)
      → h a ≡ header b
      → b.size < 32
      → fits n b ≡ true
      → a ≤ last
      → search_loop (suc f) last n a h ≡ take_block a n h
  unfolding search_loop get_size get_used
  search_take b f a head small hit below =
      rw (leb_of_le {a = a} {b = last} below, head, header_size b small, header_used b small, hit)
        refl

  fits-unused : (b : Block) → fits n b ≡ true → (header b ≡ b.size) × (n ≤ b.size)
  fits-unused b hit = ground arith

module _ (last n e : ℕ) (large : 3 ≤ n) (below : e ≤ last + 1) (room : last + 1 < 2 ^ 32) where
  module _ (h : Mem) (a : ℕ) (b : Block) (bs : List Block) (tiles : Tiles h a (b ∷ bs) e) where
    end_of_block : a + 2 ^ b.size ≤ e
    end_of_block = Tiles-le h (a + 2 ^ b.size) bs e tiles.3

    in_range : a ≤ last
    in_range = omega (arith, end_of_block, one-le-two_pow b.size)

    Placed-take :
        (f : ℕ)
        → fits n b ≡ true
        → Placed h a e
            (record {
              address = a;
              found = b.size;
              blocks = block n true ∷ (pieces n (b.size - n) ++ bs);
            })
            (search_loop (suc f) last n a h)
    Placed-take f hit = record {
      after = taken.after;
      returns = search_take h last n large room b f a tiles.0 tiles.2 hit in_range ∙ taken.returns;
      tiles =
          Tiles-append taken.after a (block n true ∷ pieces n (b.size - n)) (a + 2 ^ b.size) bs e
            taken.tiles
            (Tiles-frame h taken.after (a + 2 ^ b.size) bs e tiles.3
              (λ x p q. taken.same x (inr p)));
      same = taken.same;
      inside = (omega arith, end_of_block);
    }
      where
        taken : Taken h a n b.size (take_block a n h)
        taken =
            let (unused, fit) = fits-unused h last n large room b hit in
            take_block-Taken h a n b.size large fit tiles.2 (tiles.0 ∙ unused)
              (omega (arith, end_of_block))

    Searched-skip :
        (f : ℕ) (o : Option Fit)
        → fits n b ≡ false
        → Searched h (a + 2 ^ b.size) e o (search_loop f last n (a + 2 ^ b.size) h)
        → Searched h a e (Option.map (behind b) o) (search_loop (suc f) last n a h)
    Searched-skip f none miss r =
        search_skip h last n large room b f a tiles.0 tiles.2 miss (omega (arith, end_of_block)) ∙ r
    Searched-skip f (some fit) miss r = record {
      after = r.after;
      returns =
          search_skip h last n large room b f a tiles.0 tiles.2 miss (omega (arith, end_of_block))
          ∙ r.returns;
      tiles = (
        r.same a (inl (omega (arith, one-le-two_pow b.size, r.inside.0))) ∙ tiles.0,
        tiles.1,
        tiles.2,
        r.tiles,
      );
      same = r.same;
      inside = omega (arith, r.inside);
    }

  pub search_loop-Searched :
      (h : Mem) (fuel a : ℕ) (bs : List Block)
      → Tiles h a bs e
      → last + 2 ≤ fuel + a
      → IsQuiet h e last
      → Searched h a e (first_fit n a bs) (search_loop fuel last n a h)
  unfolding first_fit
  search_loop-Searched h fuel a [] t enough quiet =
      search_tail h last n large room fuel a enough (omega arith) (rw t quiet)
  search_loop-Searched h zero a (b ∷ bs) t enough quiet =
      absurd (omega (arith, in_range h a b bs t))
  search_loop-Searched h (suc f) a (b ∷ bs) t enough quiet = elim (Bool-cases (fits n b)) [
    | inl hit ↦ rw hit (Placed-take h a b bs t f hit)
    | inr miss ↦ rw miss (
        Searched-skip h a b bs t f (first_fit n (a + 2 ^ b.size) bs) miss (
          search_loop-Searched h f (a + 2 ^ b.size) bs t.3 (omega (arith, one-le-two_pow b.size))
            quiet))
  ]
