-- ===== src/State/Descriptors.antt =====
-- kernel/proc/process.h: the bytes of a `process_desc`, which is packed.
use loof_os.Base.{
  ℕ, zero, suc, ◌+◌, ◌*◌, ◌==◌, ◌<◌, ◌^◌, ◌≡◌, ◌∙◌, refl, arith, List, [], ◌∷◌, if◌then◌else◌, inl,
  inr, u8, ==_of_eq, ==_of_ne, eq_or_ne, some, get_elem?, length, ◌≤◌, ◌⊎◌,
}
use loof_os.Machine.{Mem, write, word_at, put_word}
use loof_os.Machine.Memory.{write_self, write_ne}
use loof_os.Machine.Words.{put_word_ne, word_at-put_word_self, word_at-put_word_ne, word_at-same}
use loof_os.State.{ProcessDesc}

-- Its words, in the order of their addresses; `state` is the byte after them.
abbrev pub words_of : ProcessDesc → List ℕ
words_of d =
    d.frame.eip ∷ d.frame.cs ∷ d.frame.eflags ∷ d.frame.esp ∷ d.frame.ss ∷ d.gen_regs.edi
    ∷ d.gen_regs.esi ∷ d.gen_regs.ebp ∷ d.gen_regs.ebx ∷ d.gen_regs.edx ∷ d.gen_regs.ecx
    ∷ d.gen_regs.eax ∷ d.gen_regs.esp ∷ d.seg_regs.ds ∷ d.seg_regs.es ∷ d.seg_regs.fs
    ∷ d.seg_regs.gs ∷ d.esp0 ∷ d.page_directory ∷ d.prev ∷ d.next ∷ []

unfoldable pub put_words : ℕ → List ℕ → Mem → Mem
put_words a [] h = h
put_words a (w ∷ ws) h = put_words (a + 4) ws (put_word h a w)

unfoldable pub put_desc : ℕ → ProcessDesc → Mem → Mem
put_desc a d h = write (put_words a (words_of d) h) (a + 84) (u8 d.state)

unfoldable pub desc_at : Mem → ℕ → ProcessDesc
desc_at h a = record {
  frame = record {
    eip = word_at h a;
    cs = word_at h (a + 4);
    eflags = word_at h (a + 8);
    esp = word_at h (a + 12);
    ss = word_at h (a + 16);
  };
  gen_regs = record {
    edi = word_at h (a + 20);
    esi = word_at h (a + 24);
    ebp = word_at h (a + 28);
    ebx = word_at h (a + 32);
    edx = word_at h (a + 36);
    ecx = word_at h (a + 40);
    eax = word_at h (a + 44);
    esp = word_at h (a + 48);
  };
  seg_regs = record {
    ds = word_at h (a + 52);
    es = word_at h (a + 56);
    fs = word_at h (a + 60);
    gs = word_at h (a + 64);
  };
  esp0 = word_at h (a + 68);
  page_directory = word_at h (a + 72);
  prev = word_at h (a + 76);
  next = word_at h (a + 80);
  state = h (a + 84);
}

-- The descriptors at these addresses into the memory, and back from it.
unfoldable pub put_descs : List ℕ → (ℕ → ProcessDesc) → Mem → Mem
put_descs [] f h = h
put_descs (p ∷ ps) f h = put_desc p (f p) (put_descs ps f h)

unfoldable pub take_descs : List ℕ → Mem → (ℕ → ProcessDesc) → ℕ → ProcessDesc
take_descs [] h f q = f q
take_descs (p ∷ ps) h f q = if q == p then desc_at h p else take_descs ps h f q

-- Every field fits its width.
abbrev pub AllWords : List ℕ → Type 0
AllWords [] = Unit {0}
AllWords (w ∷ ws) = (w < 2 ^ 32) × AllWords ws

abbrev pub IsDesc : ProcessDesc → Type 0
IsDesc d = AllWords (words_of d) × (d.state < 256)

word-put_words_before :
    (ws : List ℕ) (a b : ℕ) (h : Mem) → b + 4 ≤ a → word_at (put_words a ws h) b ≡ word_at h b
unfolding put_words
word-put_words_before [] a b h before = refl
word-put_words_before (w ∷ ws) a b h before =
    word-put_words_before ws (a + 4) b (put_word h a w) (omega (arith, before))
    ∙ word_at-put_word_ne h a w b (inl before)

some-inj : (a b : ℕ) → some a ≡ some b → a ≡ b
some-inj a b e = cc

word-put_words :
    (i : ℕ) (ws : List ℕ) (a b w : ℕ) (h : Mem)
    → AllWords ws
    → get_elem? ws i ≡ some w
    → b ≡ a + 4 * i
    → word_at (put_words a ws h) b ≡ w
unfolding put_words
word-put_words i [] a b w h small at place = absurd cc
word-put_words zero (v ∷ ws) a b w h small at place =
    let here : b ≡ a = omega (arith, place) in
    rw here (
      word-put_words_before ws (a + 4) a (put_word h a v) (omega arith)
      ∙ word_at-put_word_self h a v small.0
      ∙ some-inj v w at)
word-put_words (suc i) (v ∷ ws) a b w h small at place =
    word-put_words i ws (a + 4) b w (put_word h a v) small.1 at (omega (arith, place))

byte-put_words_ne :
    (ws : List ℕ) (a x : ℕ) (h : Mem) → (x < a) ⊎ (a + 4 * length ws ≤ x) → put_words a ws h x ≡ h x
unfolding put_words
byte-put_words_ne [] a x h out = refl
byte-put_words_ne (w ∷ ws) a x h out =
    byte-put_words_ne ws (a + 4) x (put_word h a w) (ground (arith, out))
    ∙ put_word_ne h a w x (ground (arith, out))

-- A descriptor's bytes are its own.
pub put_desc_ne :
    (a x : ℕ) (d : ProcessDesc) (h : Mem) → (x < a) ⊎ (a + 85 ≤ x) → put_desc a d h x ≡ h x
unfolding put_desc
put_desc_ne a x d h out =
    write_ne (put_words a (words_of d) h) (a + 84) (u8 d.state) x (ground (arith, out))
    ∙ byte-put_words_ne (words_of d) a x h (ground (arith, out))

-- What is read back is what was put.
pub desc_at-put_desc :
    (a : ℕ) (d : ProcessDesc) (h : Mem) → IsDesc d → desc_at (put_desc a d h) a ≡ d
unfolding desc_at put_desc
desc_at-put_desc a d h small = λ i. record {
  frame = record {
    eip = field 0 a d.frame.eip refl (omega arith) (omega arith) i;
    cs = field 1 (a + 4) d.frame.cs refl (omega arith) (omega arith) i;
    eflags = field 2 (a + 8) d.frame.eflags refl (omega arith) (omega arith) i;
    esp = field 3 (a + 12) d.frame.esp refl (omega arith) (omega arith) i;
    ss = field 4 (a + 16) d.frame.ss refl (omega arith) (omega arith) i;
  };
  gen_regs = record {
    edi = field 5 (a + 20) d.gen_regs.edi refl (omega arith) (omega arith) i;
    esi = field 6 (a + 24) d.gen_regs.esi refl (omega arith) (omega arith) i;
    ebp = field 7 (a + 28) d.gen_regs.ebp refl (omega arith) (omega arith) i;
    ebx = field 8 (a + 32) d.gen_regs.ebx refl (omega arith) (omega arith) i;
    edx = field 9 (a + 36) d.gen_regs.edx refl (omega arith) (omega arith) i;
    ecx = field 10 (a + 40) d.gen_regs.ecx refl (omega arith) (omega arith) i;
    eax = field 11 (a + 44) d.gen_regs.eax refl (omega arith) (omega arith) i;
    esp = field 12 (a + 48) d.gen_regs.esp refl (omega arith) (omega arith) i;
  };
  seg_regs = record {
    ds = field 13 (a + 52) d.seg_regs.ds refl (omega arith) (omega arith) i;
    es = field 14 (a + 56) d.seg_regs.es refl (omega arith) (omega arith) i;
    fs = field 15 (a + 60) d.seg_regs.fs refl (omega arith) (omega arith) i;
    gs = field 16 (a + 64) d.seg_regs.gs refl (omega arith) (omega arith) i;
  };
  esp0 = field 17 (a + 68) d.esp0 refl (omega arith) (omega arith) i;
  page_directory = field 18 (a + 72) d.page_directory refl (omega arith) (omega arith) i;
  prev = field 19 (a + 76) d.prev refl (omega arith) (omega arith) i;
  next = field 20 (a + 80) d.next refl (omega arith) (omega arith) i;
  state = last i;
}
  where
    field :
        (n b w : ℕ)
        → get_elem? (words_of d) n ≡ some w
        → b ≡ a + 4 * n
        → b + 4 ≤ a + 84
        → word_at (write (put_words a (words_of d) h) (a + 84) (u8 d.state)) b ≡ w
    field n b w at place early =
        word_at-same (write (put_words a (words_of d) h) (a + 84) (u8 d.state))
          (put_words a (words_of d) h) b
          (λ x lo hi.
            write_ne (put_words a (words_of d) h) (a + 84) (u8 d.state) x
              (omega (arith, hi, early)))
        ∙ word-put_words n (words_of d) a b w h small.0 at place

    last : write (put_words a (words_of d) h) (a + 84) (u8 d.state) (a + 84) ≡ d.state
    last = write_self (put_words a (words_of d) h) (a + 84) (u8 d.state) ∙ omega (arith, small.1)

-- Two descriptors share no byte.
abbrev pub Apart : ℕ → ℕ → Type 0
Apart p q = (p + 85 ≤ q) ⊎ (q + 85 ≤ p)

abbrev pub ApartFrom : ℕ → List ℕ → Type 0
ApartFrom p [] = Unit {0}
ApartFrom p (q ∷ qs) = Apart p q × ApartFrom p qs

abbrev pub AllApart : List ℕ → Type 0
AllApart [] = Unit {0}
AllApart (p ∷ ps) = ApartFrom p ps × AllApart ps

abbrev pub AllDescs : (ℕ → ProcessDesc) → List ℕ → Type 0
AllDescs f [] = Unit {0}
AllDescs f (p ∷ ps) = IsDesc (f p) × AllDescs f ps

-- A memory with the same bytes for the descriptors at these addresses.
abbrev pub Keeps : List ℕ → Mem → Mem → Type 0
Keeps [] h g = Unit {0}
Keeps (p ∷ ps) h g = ((x : ℕ) → p ≤ x → x < p + 85 → g x ≡ h x) × Keeps ps h g

desc_at-same :
    (h g : Mem) (p : ℕ) → ((x : ℕ) → p ≤ x → x < p + 85 → g x ≡ h x) → desc_at g p ≡ desc_at h p
unfolding desc_at
desc_at-same h g p same = λ i. record {
  frame = record {
    eip = word (p) (omega arith) (omega arith) i;
    cs = word (p + 4) (omega arith) (omega arith) i;
    eflags = word (p + 8) (omega arith) (omega arith) i;
    esp = word (p + 12) (omega arith) (omega arith) i;
    ss = word (p + 16) (omega arith) (omega arith) i;
  };
  gen_regs = record {
    edi = word (p + 20) (omega arith) (omega arith) i;
    esi = word (p + 24) (omega arith) (omega arith) i;
    ebp = word (p + 28) (omega arith) (omega arith) i;
    ebx = word (p + 32) (omega arith) (omega arith) i;
    edx = word (p + 36) (omega arith) (omega arith) i;
    ecx = word (p + 40) (omega arith) (omega arith) i;
    eax = word (p + 44) (omega arith) (omega arith) i;
    esp = word (p + 48) (omega arith) (omega arith) i;
  };
  seg_regs = record {
    ds = word (p + 52) (omega arith) (omega arith) i;
    es = word (p + 56) (omega arith) (omega arith) i;
    fs = word (p + 60) (omega arith) (omega arith) i;
    gs = word (p + 64) (omega arith) (omega arith) i;
  };
  esp0 = word (p + 68) (omega arith) (omega arith) i;
  page_directory = word (p + 72) (omega arith) (omega arith) i;
  prev = word (p + 76) (omega arith) (omega arith) i;
  next = word (p + 80) (omega arith) (omega arith) i;
  state = same (p + 84) (omega arith) (omega arith) i;
}
  where
    word : (b : ℕ) → p ≤ b → b + 4 ≤ p + 85 → word_at g b ≡ word_at h b
    word b from to =
        word_at-same g h b (λ x lo hi. same x (omega (arith, lo, from)) (omega (arith, hi, to)))

Keeps-put_desc :
    (ps : List ℕ) (p : ℕ) (d : ProcessDesc) (h g : Mem)
    → ApartFrom p ps
    → Keeps ps (put_desc p d h) g
    → Keeps ps h g
Keeps-put_desc [] p d h g apart keeps = tt
Keeps-put_desc (q ∷ qs) p d h g apart keeps = (
  (λ x lo hi. keeps.0 x lo hi ∙ put_desc_ne p x d h (ground (arith, apart.0, lo, hi))),
  Keeps-put_desc qs p d h g apart.1 keeps.1,
)

-- Descriptors that are put into the memory, and whose bytes stay, are the ones taken back.
pub take_descs-put_descs :
    (ps : List ℕ) (f : ℕ → ProcessDesc) (h g : Mem)
    → AllDescs f ps
    → AllApart ps
    → Keeps ps (put_descs ps f h) g
    → (q : ℕ) → take_descs ps g f q ≡ f q
unfolding take_descs put_descs
take_descs-put_descs [] f h g small apart keeps q = refl
take_descs-put_descs (p ∷ ps) f h g small apart keeps q = elim (eq_or_ne q p) [
  | inl e ↦
      rw (==_of_eq e, e)
        (desc_at-same (put_desc p (f p) (put_descs ps f h)) g p keeps.0
          ∙ desc_at-put_desc p (f p) (put_descs ps f h) small.0)
  | inr ne ↦ rw (==_of_ne q p ne) (
      take_descs-put_descs ps f h g small.1 apart.1
        (Keeps-put_desc ps p (f p) (put_descs ps f h) g apart.0 keeps.1) q)
]
