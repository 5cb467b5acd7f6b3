-- ===== src/BootRom/Tests.antt =====
-- The boot ROM at concrete entries, and cores that start from it.
use garmin_gpsmap_emu.Prelude.{ℕ, ◌+◌, ◌-◌, ◌^◌}
use garmin_gpsmap_emu.Prelude.{bit_and, bit_or}
use garmin_gpsmap_emu.Prelude.{◌≡◌, refl, arith}
use garmin_gpsmap_emu.Prelude.{false}
use garmin_gpsmap_emu.Prelude.{some, [], ◌∷◌}
use garmin_gpsmap_emu.Prelude.{update}
use garmin_gpsmap_emu.BootRom.{rom_base, mpcore_base, aux_boot0, build_boot_rom, arm_b, arm_bne}
use garmin_gpsmap_emu.BootRom.{emit, rom_emit_to_ns, vectors, primary, park_loop}
use garmin_gpsmap_emu.BootRom.Arm.{Core, run, roused, branch_target}
use garmin_gpsmap_emu.BootRom.Run.{boot_word}
use garmin_gpsmap_emu.RegStub.{wkupgen_write_hook}
use garmin_gpsmap_emu.BootRom.Start.{released, primary_starts, secondary_starts}

-- The vectors branch where the table says: reset to the secondary entry, the secure call to its handler.
reset_vector : branch_target rom_base (build_boot_rom 0x80e00000 0) ≡ rom_base + 0x40
unfolding build_boot_rom arm_b arm_bne emit rom_emit_to_ns vectors primary park_loop
reset_vector = refl

secure_vector : branch_target (rom_base + 8) (build_boot_rom 0x80e00000 2) ≡ rom_base + 0x20
unfolding build_boot_rom arm_b arm_bne emit rom_emit_to_ns vectors primary park_loop
secure_vector = refl

-- A core after reset.
abbrev fresh : ℕ → ℕ → Core
fresh at n = record {
  pc = rom_base + at;
  regs = λ n. 0;
  z = false;
  cpsr = 0x1d3;
  spsr = 0;
  nsacr = 0;
  scr = 0;
  written = [];
  cpu = record { cpu_index = n; halted = false; kicked = false };
}

abbrev set_to : ℕ → ℕ → ℕ
set_to v = update (update (λ a. 0) boot_word 1) (boot_word + 4) v

primary_starts_example :
    (d : Core) × (run 24 0x80e00000 (λ a. 0) (fresh 0x90 0) ≡ some d)
    × (d.pc ≡ 0x80e00000)
    × (d.cpsr ≡ bit_or (bit_and 0 0x00ffff00) 0xd3)
    × (d.scr ≡ bit_or 0 0x31)
    × (d.nsacr ≡ bit_or (bit_or 0 0xc00) 0x40000)
    × (d.written
        ≡ (mpcore_base + 0x104, 0xff)
          ∷ (mpcore_base + 0x1090, 2 ^ 32 - 1)
          ∷ (mpcore_base + 0x108c, 2 ^ 32 - 1)
          ∷ (mpcore_base + 0x1088, 2 ^ 32 - 1)
          ∷ (mpcore_base + 0x1084, 2 ^ 32 - 1)
          ∷ (mpcore_base + 0x1080, 2 ^ 32 - 1)
          ∷ [])
primary_starts_example = primary_starts 0x80e00000 (λ a. 0) (fresh 0x90 0) refl refl refl

secondary_starts_example :
    (b d e : Core) × (run 21 0x80e00000 (λ a. 0) (fresh 0x40 1) ≡ some b)
    × (roused 3 0x80e00000 (λ a. 0) b ≡ some d)
    × ((m : ℕ) (device : ℕ → ℕ) → run m 0x80e00000 device d ≡ some d)
    × (wkupgen_write_hook (d.cpu ∷ []) aux_boot0 1 ≡ released d.cpu ∷ [])
    × (run 5 0x80e00000 (set_to 0x80001000) (record d { cpu = released d.cpu }) ≡ some e)
    × (e.pc ≡ 0x80001000)
    × (e.cpsr ≡ bit_or (bit_and 0 0x00ffff00) 0xd3)
    × (e.scr ≡ bit_or 0 0x31)
    × (e.nsacr ≡ bit_or (bit_or 0 0xc00) 0x40000)
    × (e.written ≡ (mpcore_base + 0x104, 0xff) ∷ [])
secondary_starts_example =
    secondary_starts 3 0x80e00000 (λ a. 0) (set_to 0x80001000) (fresh 0x40 1) refl refl
      (omega arith) refl (omega arith) refl
