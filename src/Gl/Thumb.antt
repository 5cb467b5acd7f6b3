-- ===== src/Gl/Thumb.antt =====
-- The Thumb instructions of a trampoline, as the ARMv7-A manual describes them, on a core that runs
-- the bytes from an entry on, with the trap's registers behind its loads and stores.
use garmin_gpsmap_emu.Prelude.{ℕ, zero, suc, ◌+◌, ◌-◌, ◌*◌, ◌/◌, ◌%◌, ◌^◌}
use garmin_gpsmap_emu.Prelude.{u32}
use garmin_gpsmap_emu.Prelude.{◌&&◌, if◌then◌else◌, ◌==◌, ltb, leb}
use garmin_gpsmap_emu.Prelude.{Option, none, some, List}
use garmin_gpsmap_emu.Prelude.{update}
use garmin_gpsmap_emu.Gl.{mmio_base, Gl, mmio_read, mmio_write}

-- `at` is the offset from the entry. A core that has returned is at an address.
pub record Core (S : Type 0) : Type 0 where
  pub at : ℕ
  pub regs : ℕ → ℕ
  pub gl : Gl S
  pub returned : Option ℕ

-- A halfword, low byte first.
abbrev pub halfword : (ℕ → ℕ) → ℕ → ℕ
halfword code at = code at + 256 * code (at + 1)

-- The immediate of MOVW and MOVT.
abbrev pub imm16 : ℕ → ℕ → ℕ
imm16 a b = a % 16 * 4096 + a / 1024 % 2 * 2048 + b / 4096 % 8 * 256 + b % 256

module _ {S : Type 0} (dispatch : S → ℕ → List ℕ → S × ℕ) (word : ℕ → ℕ) where
  -- The instruction whose halfwords are `a` and, if it has two, `b`.
  unfoldable pub execute : ℕ → ℕ → Core S → Option (Core S)
  execute a b c =
      let rt = b / 4096 in
      let rd = b / 256 % 16 in
      let address = u32 (c.regs (a % 16) + b % 4096) in
      let next = record c { at = c.at + 4 } in
      if a / 16 % 64 == 0x24 && a / 2 ^ 11 == 0x1e && ltb b (2 ^ 15)
      then some (record next { regs = update c.regs rd (imm16 a b) })
      else if a / 16 % 64 == 0x2c && a / 2 ^ 11 == 0x1e && ltb b (2 ^ 15)
      then some (record next { regs = update c.regs rd (imm16 a b * 2 ^ 16 + c.regs rd % 2 ^ 16) })
      else if a / 16 == 0xf8c && leb mmio_base address
      then some (record next { gl = mmio_write dispatch word c.regs c.gl (address - mmio_base) })
      else if a / 16 == 0xf8d && leb mmio_base address
      then some (record next {
        regs = update c.regs rt (mmio_read dispatch word c.gl (address - mmio_base));
      })
      else if a / 128 == 0x8e
      then some (record c { returned = some (c.regs (a / 8 % 16)) })
      else none

  unfoldable pub step : (ℕ → ℕ) → Core S → Option (Core S)
  step code c = execute (halfword code c.at) (halfword code (c.at + 2)) c

  unfoldable pub run : ℕ → (ℕ → ℕ) → Core S → Option (Core S)
  run zero code c = some c
  run (suc n) code c = elim (step code c) [ none ↦ none | some d ↦ run n code d ]
