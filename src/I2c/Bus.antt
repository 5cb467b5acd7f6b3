-- ===== src/I2c/Bus.antt =====
-- QEMU's I2C bus as the controller uses it: an abstract state and the four calls.
use garmin_gpsmap_emu.Prelude.{ℕ, zero, suc}
use garmin_gpsmap_emu.Prelude.{Bool}
use garmin_gpsmap_emu.Prelude.{List, [], ◌∷◌}

-- `start_transfer` and `send` return true where QEMU returns a non-zero code (no slave answers).
pub record BusOps (S : Type 0) : Type 0 where
  pub start_transfer : S → ℕ → Bool → S × Bool
  pub send : S → ℕ → S × Bool
  pub recv : S → ℕ × S
  pub end_transfer : S → S

-- The bytes that `n` reads in a row deliver.
unfoldable pub received : {S : Type 0} → BusOps S → ℕ → S → List ℕ
received ops zero b = []
received ops (suc n) b = let (v, b') = ops.recv b in v ∷ received ops n b'
