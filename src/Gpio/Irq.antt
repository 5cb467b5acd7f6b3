-- ===== src/Gpio/Irq.antt =====
-- The interrupt side of the GPIO bank of qemu/hw/arm/garmin_gpsmap.c: the line, and the levels
-- that are present and enabled.
use garmin_gpsmap_emu.Prelude.{ℕ, ◌≡◌, refl, bit_and, has}
use garmin_gpsmap_emu.Prelude.{List, [], ◌∷◌, Bool, arith}
use garmin_gpsmap_emu.Prelude.Bits.{bit, bit-and, bit-or, bit_le}
use garmin_gpsmap_emu.Gpio.{Gpio, Reg, update_irq, level, input, write_reg, write, set_pin, decode}

pub record IsSound (s : Gpio) : Type 0 where
  -- the line is high exactly when an enabled bit of bank 0 is pending
  pub line : s.irq ≡ has s.irqstatus0 s.irqenable0
  -- a level that is present on an enabled pin of bank 0 is pending
  pub latched : (k : ℕ) → bit (level s) k ≡ 1 → bit s.irqenable0 k ≡ 1 → bit s.irqstatus0 k ≡ 1

pub update_irq-IsSound : (s : Gpio) → IsSound (update_irq s)
unfolding update_irq level input
update_irq-IsSound s = record {
  line = refl;
  latched = λ k h e. omega (
    arith,
    bit-or s.irqstatus0 (bit_and (level s) s.irqenable0) k,
    bit-and (level s) s.irqenable0 k,
    bit_le s.irqstatus0 k,
  );
}

-- The registers of bank 1, and those without a part in detection, leave both sides alone.
write_reg-IsSound : (s : Gpio) (r : Reg) (val : ℕ) → IsSound s → IsSound (write_reg s r val)
unfolding write_reg level input
write_reg-IsSound s Reg.sysconfig val v = record { line = v.line; latched = v.latched }
write_reg-IsSound s Reg.irqstatus_raw1 val v = record { line = v.line; latched = v.latched }
write_reg-IsSound s Reg.irqstatus1 val v = record { line = v.line; latched = v.latched }
write_reg-IsSound s Reg.irqenable_clr1 val v = record { line = v.line; latched = v.latched }
write_reg-IsSound s Reg.irqwaken0 val v = record { line = v.line; latched = v.latched }
write_reg-IsSound s Reg.irqwaken1 val v = record { line = v.line; latched = v.latched }
write_reg-IsSound s Reg.ctrl val v = record { line = v.line; latched = v.latched }
write_reg-IsSound s Reg.debounceenable val v = record { line = v.line; latched = v.latched }
write_reg-IsSound s Reg.debouncingtime val v = record { line = v.line; latched = v.latched }
write_reg-IsSound s _ val v = search (update_irq-IsSound, v)

-- Every register write keeps the line and the latches right.
pub write-IsSound : (s : Gpio) (addr val : ℕ) → IsSound s → IsSound (write s addr val)
unfolding write
write-IsSound s addr val v = write_reg-IsSound s (decode addr) val v

set_pin-IsSound : (s : Gpio) (pin : ℕ) (lvl : Bool) → IsSound s → IsSound (set_pin s pin lvl)
unfolding set_pin
set_pin-IsSound s pin lvl v = grind (arith, update_irq-IsSound)

-- What happens to a bank: the guest writes a register, or a board device drives a pin.
pub data Event : Type 0 where
  access : ℕ → ℕ → Event
  drive : ℕ → Bool → Event

unfoldable pub run : Gpio → List Event → Gpio
run s [] = s
run s (access addr val ∷ es) = run (write s addr val) es
run s (drive pin lvl ∷ es) = run (set_pin s pin lvl) es

-- Whatever the guest writes and the board drives, in any order, the interrupt line is high
-- exactly when an enabled bit of bank 0 is pending, and a level that is present on an enabled
-- pin of bank 0 is pending.
pub run-IsSound : (s : Gpio) (es : List Event) → IsSound s → IsSound (run s es)
unfolding run
run-IsSound s [] v = v
run-IsSound s (access addr val ∷ es) v =
    run-IsSound (write s addr val) es (write-IsSound s addr val v)
run-IsSound s (drive pin lvl ∷ es) v =
    run-IsSound (set_pin s pin lvl) es (set_pin-IsSound s pin lvl v)
