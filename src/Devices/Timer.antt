-- ===== src/Devices/Timer.antt =====
-- What `init_pic` and `init_timer` make of the chips, and the timer's interrupt.
use loof_os.Base.{ℕ, ◌+◌, ◌^◌, ◌≤◌, ◌<◌, ◌≡◌, refl, ap, arith, ◌⊎◌, false}
use loof_os.Machine.{Run, ok, undefined, out_of_fuel}
use loof_os.State.{Kernel, outportb}
use loof_os.Idt.{set_id}
use loof_os.Idt.Gate.{gate_at, Installed, Installed-of_Installs, set_id-Installs}
use loof_os.Devices.{init_pic, init_timer, set_switching}
use loof_os.Devices.Chips.{after, after-snoc, ready, Pic, pic_step, Pit, pit_step}

-- From chips in any state, the controllers are ready with these offsets and no line masked.
pub record Programmed (k k' : Kernel) : Type 0 where
  master :
      (p : Pic)
      → after (pic_step 0x20) p k'.outputs
        ≡ record { awaits = ready; offset = 0x20; cascade = 4; mode = 1; mask = 0 }
  slave :
      (p : Pic)
      → after (pic_step 0xa0) p k'.outputs
        ≡ record { awaits = ready; offset = 0x20; cascade = 2; mode = 1; mask = 0 }
  same : k' ≡ record k { outputs = k'.outputs }

abbrev pub Programs : Kernel → Run Kernel (Unit {0}) → Type 0
Programs k (ok _ k') = Programmed k k'
Programs k undefined = ⊥
Programs k out_of_fuel = ⊥

-- Whatever the two interrupt controllers were told before, after `init_pic` both are ready, in 8086
-- mode, cascaded over line 2 and with no line masked, and both have the vector offset 0x20, so that
-- the slave's lines interrupt with the vectors of the master's. Nothing else has changed.
pub init_pic-Programs : (k : Kernel) → Programs k (init_pic k)
unfolding init_pic outportb
init_pic-Programs k = record {
  master = λ p. simp (after-snoc {S = Pic}) refl;
  slave = λ p. simp (after-snoc {S = Pic}) refl;
  same = refl;
}

-- The timer's gate is at vector 0x20, and channel 0, in any state before, divides by 1193.
pub record Ticking (handler : ℕ) (k k' : Kernel) : Type 0 where
  gate :
      gate_at k'.mem (k.idt + 256)
      ≡ record { handler = handler; selector = 8; type = 14; s = 0; dpl = 0; present = 1 }
  pit :
      (p : Pit)
      → after pit_step p k'.outputs
        ≡ record { mode = 2; high_next = false; low = 169; divider = 1193 }
  off : k'.switching_enabled ≡ 0
  others : (x : ℕ) → (x < k.idt + 256) ⊎ (k.idt + 264 ≤ x) → k'.mem x ≡ k.mem x

abbrev pub Ticks : ℕ → Kernel → Run Kernel (Unit {0}) → Type 0
Ticks handler k (ok _ k') = Ticking handler k k'
Ticks handler k undefined = ⊥
Ticks handler k out_of_fuel = ⊥

module _ (handler : ℕ) (k : Kernel) (small : handler < 2 ^ 32) (room : k.idt + 2048 ≤ 2 ^ 32) where
  gated :
      (k' : Kernel) × (set_id 0x20 handler 0x08 0xe 0 1 (record k { switching_enabled = 0 })
        ≡ ok tt k')
      × Installed
          (k.idt + 256)
          (record { handler = handler; selector = 8; type = 14; s = 0; dpl = 0; present = 1 })
          (record k { switching_enabled = 0 })
          k'
  gated =
      Installed-of_Installs (k.idt + 256)
        (record { handler = handler; selector = 8; type = 14; s = 0; dpl = 0; present = 1 })
        (record k { switching_enabled = 0 })
        (set_id 0x20 handler 0x08 0xe 0 1 (record k { switching_enabled = 0 }))
        (set_id-Installs 0x20 handler 0x08 0xe 0 1 (record k { switching_enabled = 0 })
          (omega arith) room small (omega arith) (omega arith) (omega arith) (omega arith))

  -- For a handler's address, with the interrupt table within the address space: `init_timer` returns,
  -- with switching off, the handler at vector 0x20 and nothing else of memory changed. Whatever the
  -- timer chip was told before, its channel 0 then is a rate generator that divides by 1193, which
  -- makes a thousand interrupts a second.
  pub init_timer-Ticks : Ticks handler k (init_timer handler k)
  unfolding init_timer set_switching outportb
  init_timer-Ticks = rw gated.1 (record {
    gate = gated.2.reads;
    pit = λ p. simp (after-snoc {S = Pit}) refl;
    off = ap (λ (z : Kernel). z.switching_enabled) gated.2.same;
    others = λ x out. gated.2.others x (ground (arith, out));
  })
