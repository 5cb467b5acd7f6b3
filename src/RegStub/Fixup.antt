-- ===== src/RegStub/Fixup.antt =====
-- The read fixups of the register stubs of qemu/hw/arm/garmin_gpsmap.c: PRCM, PRM, TRNG,
-- SmartReflex and McSPI.
use garmin_gpsmap_emu.Prelude.{ℕ, ◌+◌, ◌-◌, ◌*◌, ◌%◌, ◌^◌}
use garmin_gpsmap_emu.Prelude.{bit_and, bit_or, not64, shr}
use garmin_gpsmap_emu.Prelude.{◌&&◌, ◌||◌, if◌then◌else◌, ◌==◌, ltb, leb}
use garmin_gpsmap_emu.Prelude.{List, [], ◌∷◌}
use garmin_gpsmap_emu.RegStub.{RegStub}

abbrev pub cm1_dpll_blocks : List ℕ
cm1_dpll_blocks = 0x120 ∷ 0x160 ∷ 0x1a0 ∷ 0x1e0 ∷ 0x220 ∷ []

abbrev pub cm2_dpll_blocks : List ℕ
cm2_dpll_blocks = 0x140 ∷ 0x180 ∷ 0x1c0 ∷ []

-- CM_IDLEST_DPLL_x from the mode of CM_CLKMODE_DPLL_x.
abbrev pub dpll_status : ℕ → ℕ
dpll_status mode = if mode == 7 then 0x1 else if leb 4 mode then 0x100 else 0

-- CM_<dom>_CLKSTCTRL and CM_x_CLKCTRL.
unfoldable pub clock_fixup : ℕ → ℕ → ℕ
clock_fixup addr val =
    let v = bit_and val (not64 0x70000) in
    if bit_and addr 0xff == 0
    then (if leb 2 (bit_and val 3) then bit_or val 0xff00 else bit_and val (not64 0xff00))
    else if bit_and v 3 == 0
    then bit_or v 0x30000
    else v

unfoldable pub prcm_read_fixup_common : RegStub → ℕ → ℕ → List ℕ → ℕ
prcm_read_fixup_common s addr val [] = clock_fixup addr val
prcm_read_fixup_common s addr val (b ∷ bs) =
    let rest = prcm_read_fixup_common s addr val bs in
    if leb b addr && ltb addr (b + 0x40)
    then (if addr == b + 0x04 then dpll_status (bit_and (s.regs (shr b 2)) 7) else val)
    else rest

unfoldable pub cm1_read_fixup : RegStub → ℕ → ℕ → ℕ
cm1_read_fixup s addr val = prcm_read_fixup_common s addr val cm1_dpll_blocks

unfoldable pub cm2_read_fixup : RegStub → ℕ → ℕ → ℕ
cm2_read_fixup s addr val = prcm_read_fixup_common s addr val cm2_dpll_blocks

-- PM_<dom>_PWRSTST from PM_<dom>_PWRSTCTRL.
abbrev pub power_status : ℕ → ℕ
power_status ctrl =
    (let st = bit_and ctrl 3 in if st == 3 then bit_or st (bit_or 0x4 0x3f0) else st)

unfoldable pub prm_read_fixup : RegStub → ℕ → ℕ → ℕ
prm_read_fixup s addr val =
    if addr == 0x0010
    then bit_or val (bit_or (2 ^ 12) (bit_or (2 ^ 21) (2 ^ 29)))
    else if addr == 0x0014
    then bit_or val (2 ^ 5)
    else if addr == 0x1b44 || addr == 0x1b5c || addr == 0x1b74
    then 1
    else if addr == 0x1b4c || addr == 0x1b64 || addr == 0x1b7c
    then bit_and (shr (s.regs (shr (addr - 0x0c) 2)) 8) 0xff
    else if addr == 0x1ba0
    then bit_and val (not64 (2 ^ 24))
    else if leb 0x300 addr && ltb addr 0x1a00 && bit_and addr 0xff == 0x04
    then power_status (s.regs (shr (addr - 4) 2))
    else val

-- `r` is the word that `qemu_guest_getrandom_nofail` gives.
unfoldable pub trng_read_fixup : ℕ → RegStub → ℕ → ℕ → ℕ
trng_read_fixup r s addr val =
    if addr == 0x00 || addr == 0x04
    then r
    else if addr == 0x08
    then 1
    else if addr == 0x1fe0
    then 0x00000020
    else if addr == 0x1ff0
    then bit_and val (not64 1)
    else val

unfoldable pub sr_read_fixup : RegStub → ℕ → ℕ → ℕ
sr_read_fixup s addr val =
    if addr == 0x04 || addr == 0x24 || addr == 0x28
    then 0xf
    else if addr == 0x08 || addr == 0x0c || addr == 0x10 || addr == 0x14
    then 0x01000100
    else val

unfoldable pub mcspi_read_fixup : RegStub → ℕ → ℕ → ℕ
mcspi_read_fixup s addr val =
    if addr == 0x114
    then 1
    else if leb 0x130 addr && ltb addr (0x130 + 4 * 0x14) && (addr - 0x130) % 0x14 == 0
    then bit_or val 0x7
    else val
