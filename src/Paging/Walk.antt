-- ===== src/Paging/Walk.antt =====
-- How the processor translates an address below the kernel, with physical memory as the kernel sees
-- it, and the stack of free pages as a list.
use loof_os.Base.{ℕ, ◌*◌, ◌/◌, ◌%◌, ◌≤◌, ◌<◌, ◌≡◌, List, [], ◌∷◌, ◌==◌, if◌then◌else◌, add32, arith}
use loof_os.Machine.{Mem, word_at}
use loof_os.Alloc.{kernel_base}

-- What the two levels of tables say of a page.
pub data Walk : Type 0 where
  no_table : Walk
  large : Walk
  unmapped : Walk
  page : ℕ → Walk

-- Where the directory entry and the table entry for `addr` are.
abbrev pub pde_at : ℕ → ℕ → ℕ
pde_at dir addr = add32 dir (4 * (addr / 4194304))

abbrev pub pte_at : Mem → ℕ → ℕ → ℕ
pte_at h dir addr =
    add32 (add32 (word_at h (pde_at dir addr) / 4096 * 4096) kernel_base) (4 * (addr / 4096 % 1024))

abbrev pub walk_entry : ℕ → Walk
walk_entry w = if w % 2 == 0 then unmapped else page (w / 4096 * 4096)

abbrev pub walk_table : ℕ → ℕ → Walk
walk_table pde pte =
    if pde % 2 == 0 then no_table else (if pde / 128 % 2 == 1 then large else walk_entry pte)

abbrev pub walk : Mem → ℕ → ℕ → Walk
walk h dir addr = walk_table (word_at h (pde_at dir addr)) (word_at h (pte_at h dir addr))

-- The free pages, from the top of the stack on: each page's first word is the next one's address, and
-- any address in the kernel's space is the bottom.
abbrev pub FreeList : Mem → ℕ → List ℕ → Type 0
FreeList h top [] = kernel_base ≤ top
FreeList h top (p ∷ ps) =
    (top ≡ p) × (p < kernel_base) × (p % 4096 ≡ 0) × FreeList h (word_at h p) ps

-- What the branches of the two routines read.
pub walk-large : (pde pte : ℕ) → walk_table pde pte ≡ large → (pde % 2 ≡ 1) × (pde / 128 % 2 ≡ 1)
walk-large pde pte w = ground arith

pub walk-unmapped :
    (pde pte : ℕ)
    → walk_table pde pte ≡ unmapped
    → (pde % 2 ≡ 1) × (pde / 128 % 2 ≡ 0) × (pte % 2 ≡ 0)
walk-unmapped pde pte w = ground arith

pub walk-page :
    (pde pte p : ℕ)
    → walk_table pde pte ≡ page p
    → (pde % 2 ≡ 1) × (pde / 128 % 2 ≡ 0) × (pte % 2 ≡ 1)
walk-page pde pte p w = grind arith
