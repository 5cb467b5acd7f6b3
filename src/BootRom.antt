-- ===== src/BootRom.antt =====
-- The boot ROM of qemu/hw/arm/garmin_gpsmap.c: `build_boot_rom` with `rom_emit_to_ns` and the branch
-- encodings. The array of words is a function of the index.
mod Arm
mod Run
mod Start
mod Tests
use garmin_gpsmap_emu.Prelude.{ℕ, ◌+◌, ◌-◌, ◌/◌, ◌^◌}
use garmin_gpsmap_emu.Prelude.{bit_and, bit_or, u32, shr}
use garmin_gpsmap_emu.Prelude.{List, [], ◌∷◌}
use garmin_gpsmap_emu.Prelude.{update}

abbrev pub rom_base : ℕ
rom_base = 0x40000000

abbrev pub mpcore_base : ℕ
mpcore_base = 0x48240000

abbrev pub wkupgen_base : ℕ
wkupgen_base = 0x48281000

abbrev pub aux_boot0 : ℕ
aux_boot0 = 0x800

-- The low 24 digits of `(to - from - 8) >> 2`, the difference of two `int32_t`: the mask drops the
-- copies of the sign that the shift brings in.
abbrev pub offset24 : ℕ → ℕ → ℕ
offset24 from to = bit_and (shr (u32 (u32 to + 2 ^ 33 - u32 from - 8)) 2) 0x00ffffff

unfoldable pub arm_b : ℕ → ℕ → ℕ
arm_b from to = bit_or 0xea000000 (offset24 from to)

unfoldable pub arm_bne : ℕ → ℕ → ℕ
arm_bne from to = bit_or 0x1a000000 (offset24 from to)

-- The words stored in order, each with its byte offset.
unfoldable pub emit : List (ℕ × ℕ) → (ℕ → ℕ) → ℕ → ℕ
emit [] rom = rom
emit ((at, word) ∷ rest) rom = emit rest (update rom (at / 4) word)

unfoldable pub rom_emit_to_ns : (ℕ → ℕ) → ℕ → ℕ → ℕ → ℕ
rom_emit_to_ns rom at target =
    emit
      ((at, 0xe59f003c)
        ∷ (at + 0x04, 0xe3a010ff)
        ∷ (at + 0x08, 0xe5801000)
        ∷ (at + 0x0c, 0xf1020016)
        ∷ (at + 0x10, 0xee110f51)
        ∷ (at + 0x14, 0xe3800b03)
        ∷ (at + 0x18, 0xe3800701)
        ∷ (at + 0x1c, 0xee010f51)
        ∷ (at + 0x20, 0xee110f11)
        ∷ (at + 0x24, 0xe3800031)
        ∷ (at + 0x28, 0xee010f11)
        ∷ (at + 0x2c, 0xe3a010d3)
        ∷ (at + 0x30, 0xe169f001)
        ∷ (at + 0x34, 0xe59fe004)
        ∷ (at + 0x38, 0xf57ff06f)
        ∷ (at + 0x3c, 0xe1b0f00e)
        ∷ (at + 0x40, target)
        ∷ (at + 0x44, mpcore_base + 0x104)
        ∷ [])
      rom

-- The vectors and the handler of secure services.
unfoldable pub vectors : (ℕ → ℕ) → ℕ → ℕ
vectors rom =
    emit
      ((0x00, arm_b 0x00 0x40)
        ∷ (0x04, arm_b 0x04 0x04)
        ∷ (0x08, arm_b 0x08 0x20)
        ∷ (0x0c, arm_b 0x0c 0x0c)
        ∷ (0x10, arm_b 0x10 0x10)
        ∷ (0x14, arm_b 0x14 0x14)
        ∷ (0x18, arm_b 0x18 0x18)
        ∷ (0x1c, arm_b 0x1c 0x1c)
        ∷ (0x20, 0xe3a00000)
        ∷ (0x24, 0xe1b0f00e)
        ∷ [])
      rom

-- The primary core's entry.
unfoldable pub primary : (ℕ → ℕ) → ℕ → ℕ → ℕ
primary rom entry =
    let groups =
      emit
        ((0x90, 0xe59f0024)
          ∷ (0x94, 0xe3e01000)
          ∷ (0x98, 0xe5801000)
          ∷ (0x9c, 0xe5801004)
          ∷ (0xa0, 0xe5801008)
          ∷ (0xa4, 0xe580100c)
          ∷ (0xa8, 0xe5801010)
          ∷ (0xac, arm_b 0xac 0xc0)
          ∷ (0xbc, mpcore_base + 0x1080)
          ∷ [])
        rom in
    rom_emit_to_ns groups 0xc0 entry

-- The loop in which a secondary core waits.
unfoldable pub park_loop : (ℕ → ℕ) → ℕ → ℕ
park_loop rom =
    emit
      ((0x140, 0xe59f1014)
        ∷ (0x144, 0xe5910000)
        ∷ (0x148, 0xe3500000)
        ∷ (0x14c, arm_bne 0x14c 0x158)
        ∷ (0x150, 0xe320f003)
        ∷ (0x154, arm_b 0x154 0x144)
        ∷ (0x158, 0xe591f004)
        ∷ (0x15c, wkupgen_base + aux_boot0)
        ∷ [])
      rom

unfoldable pub build_boot_rom : ℕ → ℕ → ℕ
build_boot_rom entry =
    let handler = vectors (λ i. 0) in
    let secondary = rom_emit_to_ns handler 0x40 (rom_base + 0x140) in
    park_loop (primary secondary entry)
