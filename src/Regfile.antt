-- ===== src/Regfile.antt =====
-- The generic register-file I2C slave of qemu/hw/arm/garmin_gpsmap.c (`struct GarminI2CRegfile`):
-- a pointer byte, then reads and writes of 256 registers with an 8-bit pointer that wraps.
pub mod RoundTrip
use garmin_gpsmap_emu.Prelude.{ℕ, ◌+◌}
use garmin_gpsmap_emu.Prelude.{u8}
use garmin_gpsmap_emu.Prelude.{Bool, true, false, not, if◌then◌else◌}
use garmin_gpsmap_emu.Prelude.{List}
use garmin_gpsmap_emu.Prelude.{get_or, set}

pub record Regfile : Type 0 where
  pub regs : List ℕ
  pub ptr : ℕ
  pub have_ptr : Bool

-- The events of QEMU's I2C core.
pub data I2cEvent : Type 0 where
  start_recv start_send finish nack : I2cEvent

unfoldable pub event : Regfile → I2cEvent → Regfile
event s I2cEvent.start_send = record s { have_ptr = false }
event s _ = s

unfoldable pub send : Regfile → ℕ → Regfile
send s byte =
    if not s.have_ptr
    then record s { ptr = byte; have_ptr = true }
    else record s { regs = set s.regs s.ptr byte; ptr = u8 (s.ptr + 1) }

unfoldable pub recv : Regfile → ℕ × Regfile
recv s = (get_or s.regs s.ptr 0, record s { ptr = u8 (s.ptr + 1) })
