-- ===== src/Uart.antt =====
-- The extension registers of the UART of qemu/hw/arm/garmin_gpsmap.c, from offset 0x20 on. The 16750
-- core is QEMU's.
use garmin_gpsmap_emu.Prelude.{ℕ, ◌+◌}
use garmin_gpsmap_emu.Prelude.{u32, shr}
use garmin_gpsmap_emu.Prelude.{if◌then◌else◌, ◌==◌}
use garmin_gpsmap_emu.Prelude.{update}

unfoldable pub ext_read : (ℕ → ℕ) → ℕ → ℕ
ext_read regs addr =
    let off = addr + 0x20 in
    if off == 0x44
    then 0
    else if off == 0x50
    then 0x0601
    else if off == 0x58
    then 1
    else if off == 0x64
    then 0
    else if off == 0x68
    then 0
    else regs (shr addr 2)

unfoldable pub ext_write : (ℕ → ℕ) → ℕ → ℕ → ℕ → ℕ
ext_write regs addr val = update regs (shr addr 2) (u32 val)
