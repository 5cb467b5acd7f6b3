-- ===== src/Sync32k.antt =====
-- The 32 kHz counter of qemu/hw/arm/garmin_gpsmap.c. `muldiv64` is QEMU's.
use garmin_gpsmap_emu.Prelude.{ℕ}
use garmin_gpsmap_emu.Prelude.{bit_and}
use garmin_gpsmap_emu.Prelude.{if◌then◌else◌, ◌==◌}

-- The clock in nanoseconds is `now`; writes change nothing.
unfoldable pub sync32k_read : (ℕ → ℕ → ℕ → ℕ) → ℕ → ℕ → ℕ
sync32k_read muldiv64 now addr =
    if addr == 0x00
    then 0x00000040
    else if addr == 0x04
    then 0x00000000
    else if addr == 0x10
    then bit_and (muldiv64 now 32768 1000000000) 0xffffffff
    else 0
