-- ===== src/Alloc/Blocks.antt =====
-- What the heap's memory stands for: a list of blocks that tile a range of addresses. This view is
-- the allocator's contract; the functions of alloc.c are proved against it.
use mathlib.Core.Option
use loof_os.Base.{
  ℕ, zero, suc, ◌+◌, ◌-◌, ◌/◌, ◌%◌, ◌^◌, ◌≤◌, ◌<◌, ◌≡◌, ◌⊎◌, inl, inr, ◌∙◌, Bool, true, false, ◌&&◌,
  not, Option, none, some, List, [], ◌∷◌, ◌++◌, arith, leb, ◌==◌, Bool-cases, ==_of_gt, ==_of_eq,
  if◌then◌else◌,
}
use native.Mathlib.Nat.{one-le-pow}
use loof_os.Machine.{Mem}

pub record Block : Type 0 where
  pub size : ℕ
  pub used : Bool

abbrev pub block : ℕ → Bool → Block
block s u = record { size = s; used = u }

abbrev pub header : Block → ℕ
header b = if b.used then 128 + b.size else b.size

-- The two fields of a header.
pub header_size : (b : Block) → b.size < 32 → header b % 128 ≡ b.size
header_size b small = ground arith

pub header_used : (b : Block) → b.size < 32 → (header b / 128 % 2 == 0) ≡ not b.used
header_used b small = elim (Bool-cases b.used) [
  | inl u ↦ rw u (==_of_gt (omega arith))
  | inr u ↦ rw u (==_of_eq (omega arith))
]

-- From `a` to `e` the headers in memory are those of the blocks, each directly behind the other.
abbrev pub Tiles : Mem → ℕ → List Block → ℕ → Type 0
Tiles h a [] e = a ≡ e
Tiles h a (b ∷ bs) e =
    (h a ≡ header b) × (3 ≤ b.size) × (b.size < 32) × Tiles h (a + 2 ^ b.size) bs e

-- The block `b` of the list that starts at `a` stands at `q`.
abbrev pub At : ℕ → Block → ℕ → List Block → Type 0
At q b a [] = ⊥
At q b a (c ∷ cs) = ((q ≡ a) × (b ≡ c)) ⊎ At q b (a + 2 ^ c.size) cs

-- `h'` is `h` but for the bytes from `a` up to `e`.
abbrev pub SameOutside : ℕ → ℕ → Mem → Mem → Type 0
SameOutside a e h h' = (x : ℕ) → (x < a) ⊎ (e ≤ x) → h' x ≡ h x

-- What is left of a block of size `n + k` once a block of size `n` is split off: sizes `n` to
-- `n + k - 1`, upwards.
unfoldable pub pieces : ℕ → ℕ → List Block
pieces n zero = []
pieces n (suc k) = pieces n k ++ (block (n + k) false ∷ [])

-- The outcome of a successful search: where the block stands, its size before it is split, and the
-- blocks afterwards.
pub record Fit : Type 0 where
  pub address : ℕ
  pub found : ℕ
  pub blocks : List Block

abbrev pub behind : Block → Fit → Fit
behind b f = record f { blocks = b ∷ f.blocks }

abbrev pub fits : ℕ → Block → Bool
fits n b = not b.used && leb n b.size

-- The contract of an allocation of size `n`: the first unused block that is large enough is split
-- down to `n`, the lower half each time, and marked.
unfoldable pub first_fit : ℕ → ℕ → List Block → Option Fit
unfolding pieces
first_fit n a [] = none
first_fit n a (b ∷ bs) =
    if fits n b
    then some (record {
      address = a;
      found = b.size;
      blocks = block n true ∷ (pieces n (b.size - n) ++ bs);
    })
    else Option.map (behind b) (first_fit n (a + 2 ^ b.size) bs)

pub one-le-two_pow : (s : ℕ) → 1 ≤ 2 ^ s
one-le-two_pow s = one-le-pow s 2 (omega arith)

module _ (h : Mem) where
  pub Tiles-le : (a : ℕ) (bs : List Block) (e : ℕ) → Tiles h a bs e → a ≤ e
  Tiles-le a [] e t = omega arith
  Tiles-le a (b ∷ bs) e t = omega (arith, Tiles-le (a + 2 ^ b.size) bs e t.3)

  -- A tiling survives what happens elsewhere.
  pub Tiles-frame :
      (h' : Mem) (a : ℕ) (bs : List Block) (e : ℕ)
      → Tiles h a bs e
      → ((x : ℕ) → a ≤ x → x < e → h' x ≡ h x)
      → Tiles h' a bs e
  Tiles-frame h' a [] e t same = t
  Tiles-frame h' a (b ∷ bs) e t same = (
    same a (omega arith) (omega (arith, one-le-two_pow b.size, Tiles-le (a + 2 ^ b.size) bs e t.3))
        ∙ t.0,
    t.1,
    t.2,
    Tiles-frame h' (a + 2 ^ b.size) bs e t.3 (λ x p q. same x (omega arith) q),
  )

  pub Tiles-append :
      (a : ℕ) (bs : List Block) (m : ℕ) (cs : List Block) (e : ℕ)
      → Tiles h a bs m
      → Tiles h m cs e
      → Tiles h a (bs ++ cs) e
  Tiles-append a [] m cs e s t = rw s t
  Tiles-append a (b ∷ bs) m cs e s t =
      (s.0, s.1, s.2, Tiles-append (a + 2 ^ b.size) bs m cs e s.3 t)
