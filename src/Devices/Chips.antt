-- ===== src/Devices/Chips.antt =====
-- The interrupt controllers and the timer chip, as their data sheets have them, and what the outputs
-- of the kernel make of them.
use loof_os.Base.{
  ℕ, ◌+◌, ◌*◌, ◌/◌, ◌%◌, ◌≡◌, refl, Bool, true, false, List, [], ◌∷◌, ◌++◌, ◌==◌, if◌then◌else◌,
}

-- What a chip is after the outputs, in order.
abbrev pub after : {S : Type 0} → (S → ℕ × ℕ → S) → S → List (ℕ × ℕ) → S
after step s [] = s
after step s (o ∷ os) = after step (step s o) os

pub after-snoc :
    {S : Type 0} (step : S → ℕ × ℕ → S) (s : S) (os : List (ℕ × ℕ)) (o : ℕ × ℕ)
    → after step s (os ++ (o ∷ [])) ≡ step (after step s os) o
after-snoc step s [] o = refl
after-snoc step s (p ∷ os) o = after-snoc step (step s p) os o

-- The initialisation word that an 8259 takes next from its data port, if any.
pub data Awaits : Type 0 where
  icw2 : Awaits
  icw3 : Awaits
  icw4 : Awaits
  ready : Awaits

-- An 8259 interrupt controller.
pub record Pic : Type 0 where
  pub awaits : Awaits
  pub offset : ℕ
  pub cascade : ℕ
  pub mode : ℕ
  pub mask : ℕ

abbrev pub pic_data : Awaits → ℕ → Pic → Pic
pic_data icw2 v p = record p { awaits = icw3; offset = v / 8 * 8 }
pic_data icw3 v p = record p { awaits = icw4; cascade = v }
pic_data icw4 v p = record p { awaits = ready; mode = v }
pic_data ready v p = record p { mask = v }

-- The controller whose ports are `command` and the one after it. A command with bit 4 set starts the
-- initialisation.
abbrev pub pic_step : ℕ → Pic → ℕ × ℕ → Pic
pic_step command p (port, v) =
    if port == command
    then (if v / 16 % 2 == 1 then record p { awaits = icw2; mask = 0 } else p)
    else (if port == command + 1 then pic_data p.awaits v p else p)

-- Channel 0 of the timer chip: the half of the divider that it takes next.
pub record Pit : Type 0 where
  pub mode : ℕ
  pub high_next : Bool
  pub low : ℕ
  pub divider : ℕ

abbrev pub pit_step : Pit → ℕ × ℕ → Pit
pit_step p (port, v) =
    if port == 0x43
    then (if v / 16 == 3 then record p { mode = v / 2 % 8; high_next = false } else p)
    else (if port == 0x40
        then (if p.high_next
            then record p { high_next = false; divider = v * 256 + p.low }
            else record p { high_next = true; low = v })
        else p)
