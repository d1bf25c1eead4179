-- ===== src/Exceptions/Gates.antt =====
-- The gates that `init_exceptions` leaves in the table.
use loof_os.Base.{
  ℕ, ◌+◌, ◌*◌, ◌^◌, ◌≤◌, ◌<◌, ◌≡◌, refl, sym, ◌∙◌, ap, ap₂, subst, ◌⊎◌, inl, List, [], ◌∷◌, arith,
}
use loof_os.Machine.{Run, ok, undefined, out_of_fuel, Cmd, pure, ◌>>◌}
use loof_os.Machine.Words.{word_at-same}
use loof_os.State.{Kernel}
use loof_os.Idt.{set_id}
use loof_os.Idt.Gate.{Gate, gate_of, gate_at, Installed, Installed-of_Installs, set_id-Installs}
use loof_os.Exceptions.{Wrappers, init_exceptions}

-- A vector and its handler.
abbrev pub gates : Wrappers → List (ℕ × ℕ)
gates w =
    (0, w.divbyzero)
    ∷ (1, w.debug)
    ∷ (2, w.nonmask)
    ∷ (3, w.breakpoint)
    ∷ (4, w.overflow)
    ∷ (5, w.boundrange)
    ∷ (6, w.invalop)
    ∷ (7, w.nodevice)
    ∷ (8, w.doublefault)
    ∷ (10, w.invaltss)
    ∷ (11, w.nosegment)
    ∷ (12, w.stackseg)
    ∷ (13, w.genprotection)
    ∷ (39, w.divbyzero)
    ∷ []

abbrev install : List (ℕ × ℕ) → Cmd Kernel (Unit {0})
install [] = pure tt
install ((v, handler) ∷ gs) = set_id v handler 0x08 0xe 0 1 >> install gs

-- Vectors of the table from `v` on, in ascending order, with handlers that are addresses.
abbrev pub Ascending : ℕ → List (ℕ × ℕ) → Type 0
Ascending v [] = Unit {0}
Ascending v ((u, handler) ∷ gs) = (v ≤ u) × (u < 256) × (handler < 2 ^ 32) × Ascending (u + 1) gs

abbrev pub gate_to : ℕ → Gate
gate_to handler = record { handler = handler; selector = 8; type = 14; s = 0; dpl = 0; present = 1 }

abbrev pub AllGates : (table : ℕ) → Kernel → List (ℕ × ℕ) → Type 0
AllGates table k [] = Unit {0}
AllGates table k ((v, handler) ∷ gs) =
    (gate_at k.mem (table + 8 * v) ≡ gate_to handler) × AllGates table k gs

-- What the gates from vector `v` on leave.
record Set (k : Kernel) (v : ℕ) (gs : List (ℕ × ℕ)) (k' : Kernel) : Type 0 where
  all : AllGates k.idt k' gs
  others : (x : ℕ) → (x < k.idt + 8 * v) ⊎ (k.idt + 2048 ≤ x) → k'.mem x ≡ k.mem x
  same : k' ≡ record k { mem = k'.mem }

one :
    (u handler : ℕ) (k : Kernel)
    → u < 256
    → handler < 2 ^ 32
    → k.idt + 2048 ≤ 2 ^ 32
    → (k' : Kernel) × (set_id u handler 0x08 0xe 0 1 k ≡ ok tt k')
      × Installed (k.idt + 8 * u) (gate_to handler) k k'
one u handler k lt small room =
    Installed-of_Installs (k.idt + 8 * u) (gate_to handler) k (set_id u handler 0x08 0xe 0 1 k) (
      set_id-Installs u handler 0x08 0xe 0 1 k lt room small (omega arith) (omega arith)
        (omega arith) (omega arith))

install-Set :
    (gs : List (ℕ × ℕ)) (v : ℕ) (k : Kernel)
    → Ascending v gs
    → k.idt + 2048 ≤ 2 ^ 32
    → (k' : Kernel) × (install gs k ≡ ok tt k') × Set k v gs k'
install-Set [] v k up room = (k, refl, record { all = tt; others = λ x out. refl; same = refl })
install-Set ((u, handler) ∷ gs) v k up room =
    let first = one u handler k up.1 up.2 room in
    let table = ap (λ (z : Kernel). z.idt) first.2.same in
    let rest =
      install-Set gs (u + 1) first.0 up.3 (subst (λ t. t + 2048 ≤ 2 ^ 32) (sym table) room) in
    let kept =
      subst (λ t. (x : ℕ) → (x < t + 8 * (u + 1)) ⊎ (t + 2048 ≤ x) → rest.0.mem x ≡ first.0.mem x)
        table rest.2.others in
    (
      rest.0,
      rw first.1 rest.1,
      record {
        all = (
          ap₂ gate_of
                (word_at-same rest.0.mem first.0.mem (k.idt + 8 * u)
                  (λ x lo hi. kept x (inl (omega (arith, hi)))))
                (word_at-same rest.0.mem first.0.mem (k.idt + 8 * u + 4)
                  (λ x lo hi. kept x (inl (omega (arith, hi)))))
              ∙ first.2.reads,
          subst (λ t. AllGates t rest.0 gs) table rest.2.all,
        );
        others = λ x out.
            kept x (ground (arith, out, up.0)) ∙ first.2.others x (ground (arith, out, up.0, up.1));
        same = rest.2.same ∙ ap (λ (z : Kernel). record z { mem = rest.0.mem }) first.2.same;
      },
    )

-- The table at `table` has all gates, and only the table has changed.
pub record Handled (w : Wrappers) (k k' : Kernel) : Type 0 where
  all : AllGates k.idt k' (gates w)
  others : (x : ℕ) → (x < k.idt) ⊎ (k.idt + 2048 ≤ x) → k'.mem x ≡ k.mem x
  same : k' ≡ record k { mem = k'.mem }

abbrev pub Handles : Wrappers → Kernel → Run Kernel (Unit {0}) → Type 0
Handles w k (ok _ k') = Handled w k k'
Handles w k undefined = ⊥
Handles w k out_of_fuel = ⊥

-- For a table within the address space and handlers that are addresses, `init_exceptions` returns,
-- with the gate of each of its fourteen vectors as the processor reads it leading to the handler,
-- and with nothing changed outside the table.
pub init_exceptions-Handles :
    (w : Wrappers) (k : Kernel)
    → Ascending 0 (gates w)
    → k.idt + 2048 ≤ 2 ^ 32
    → Handles w k (init_exceptions w k)
unfolding init_exceptions
init_exceptions-Handles w k small room =
    let set = install-Set (gates w) 0 k small room in
    rw set.1 (record {
      all = set.2.all;
      others = λ x out. set.2.others x (ground (arith, out));
      same = set.2.same;
    })
