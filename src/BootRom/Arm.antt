-- ===== src/BootRom/Arm.antt =====
-- The instructions of the boot ROM, as the ARMv7-A manual describes them: what one of them does to a
-- core that runs from the ROM. Words outside this subset have no step. `msr` with field mask 9 writes
-- bytes 3 and 0 of SPSR. WFI halts the core, as in QEMU, and a halted core stays where it is.
use garmin_gpsmap_emu.Prelude.{ℕ, zero, suc, ◌+◌, ◌-◌, ◌*◌, ◌/◌, ◌%◌, ◌^◌}
use garmin_gpsmap_emu.Prelude.{bit_and, bit_or, u32, not32}
use garmin_gpsmap_emu.Prelude.{Bool, true, false, ◌&&◌, if◌then◌else◌, ◌==◌, ltb, leb}
use garmin_gpsmap_emu.Prelude.{Option, none, some, List, ◌∷◌}
use garmin_gpsmap_emu.Prelude.{update}
use garmin_gpsmap_emu.RegStub.{Cpu}
use garmin_gpsmap_emu.BootRom.{rom_base, build_boot_rom}

-- `written` lists the stores, the latest first.
pub record Core : Type 0 where
  pub pc : ℕ
  pub regs : ℕ → ℕ
  pub z : Bool
  pub cpsr : ℕ
  pub spsr : ℕ
  pub nsacr : ℕ
  pub scr : ℕ
  pub written : List (ℕ × ℕ)
  pub cpu : Cpu

-- Digits `k` to `k + n - 1` of a word.
abbrev pub field : ℕ → ℕ → ℕ → ℕ
field w k n = w / 2 ^ k % 2 ^ n

-- A modified immediate: 8 digits rotated right by twice the field above them.
abbrev pub immediate : ℕ → ℕ
immediate w =
    let r = 2 * field w 8 4 in if r == 0 then field w 0 8 else u32 (field w 0 8 * 2 ^ (32 - r))

-- What is read at an address: the ROM or a device.
abbrev pub load : (ℕ → ℕ) → (ℕ → ℕ) → ℕ → ℕ
load rom device a =
    if leb rom_base a && ltb a (rom_base + 0x200) then rom ((a - rom_base) / 4) else device a

-- A register as an operand: the program counter reads 8 ahead.
abbrev pub operand : Core → ℕ → ℕ
operand c n = if n == 15 then c.pc + 8 else c.regs n

abbrev pub next : Core → Core
next c = record c { pc = c.pc + 4 }

abbrev pub set_reg : Core → ℕ → ℕ → Core
set_reg c n v = record (next c) { regs = update c.regs n v }

-- A jump to ARM code.
abbrev pub jump : Core → ℕ → Option Core
jump c a = if a % 4 == 0 then some (record c { pc = a }) else none

-- The target of a branch.
abbrev pub branch_target : ℕ → ℕ → ℕ
branch_target pc w =
    let off = field w 0 24 in
    if ltb off (2 ^ 23) then u32 (pc + 8 + 4 * off) else u32 (pc + 8 + 4 * off + 2 ^ 32 - 2 ^ 26)

unfoldable pub execute : (ℕ → ℕ) → (ℕ → ℕ) → ℕ → Core → Option Core
execute rom device w c =
    let rd = field w 12 4 in
    let rn = field w 16 4 in
    let imm12 = field w 0 12 in
    if field w 20 12 == 0xe59
    then (let v = load rom device (u32 (operand c rn + imm12)) in
        if rd == 15 then jump c v else some (set_reg c rd v))
    else if field w 20 12 == 0xe58
    then some (record (next c) { written = (u32 (operand c rn + imm12), operand c rd) ∷ c.written })
    else if field w 16 16 == 0xe3a0
    then some (set_reg c rd (immediate w))
    else if field w 16 16 == 0xe3e0
    then some (set_reg c rd (not32 (immediate w)))
    else if field w 20 12 == 0xe38
    then some (set_reg c rd (bit_or (operand c rn) (immediate w)))
    else if field w 20 12 == 0xe35
    then some (record (next c) { z = operand c rn == immediate w })
    else if field w 24 8 == 0xea
    then some (record c { pc = branch_target c.pc w })
    else if field w 24 8 == 0x1a
    then (if c.z then some (next c) else some (record c { pc = branch_target c.pc w }))
    else if w == 0xe320f003
    then some (record (next c) { cpu = record c.cpu { halted = true } })
    else if w == 0xf57ff06f
    then some (next c)
    else if w == 0xf1020016
    then some (record (next c) { cpsr = bit_or (bit_and c.cpsr (not32 0x1f)) 0x16 })
    else if w == 0xee110f51
    then some (set_reg c 0 c.nsacr)
    else if w == 0xee010f51
    then some (record (next c) { nsacr = c.regs 0 })
    else if w == 0xee110f11
    then some (set_reg c 0 c.scr)
    else if w == 0xee010f11
    then some (record (next c) { scr = c.regs 0 })
    else if w == 0xe169f001
    then some (record (next c) {
      spsr = bit_or (bit_and c.spsr 0x00ffff00) (bit_and (c.regs 1) 0xff0000ff);
    })
    else if w == 0xe1b0f00e
    then jump (record c { cpsr = c.spsr }) (c.regs 14)
    else none

unfoldable pub step : ℕ → (ℕ → ℕ) → Core → Option Core
step entry device c =
    if c.cpu.halted
    then some c
    else execute (build_boot_rom entry) device (build_boot_rom entry ((c.pc - rom_base) / 4)) c

unfoldable pub run : ℕ → ℕ → (ℕ → ℕ) → Core → Option Core
run zero entry device c = some c
run (suc n) entry device c = elim (step entry device c) [
  | none ↦ none
  | some d ↦ run n entry device d
]

-- A halted core that an interrupt wakes `n` times, each time for the five steps of a turn.
unfoldable pub roused : ℕ → ℕ → (ℕ → ℕ) → Core → Option Core
roused zero entry device c = some c
roused (suc n) entry device c =
    elim (run 5 entry device (record c { cpu = record c.cpu { halted = false } })) [
      | none ↦ none
      | some d ↦ roused n entry device d
    ]
