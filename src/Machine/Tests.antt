-- ===== src/Machine/Tests.antt =====
-- Tests of the machine's memory map and wiring, and its theorems at concrete places.
use garmin_gpsmap_emu.Prelude.{arith, ◌+◌, ◌%◌, ◌≤◌, ◌≡◌, refl, if◌then◌else◌, ltb, leb, ◌&&◌}
use garmin_gpsmap_emu.Prelude.{get_or}
use garmin_gpsmap_emu.RegStub.{read}
use garmin_gpsmap_emu.Machine.{Sizes}
use garmin_gpsmap_emu.Machine.Stubs.{stubs, stub_of}
use garmin_gpsmap_emu.Machine.Map.{owners, regions, one_owner}
use garmin_gpsmap_emu.Machine.Lines.{drivers, lines}
use garmin_gpsmap_emu.Machine.Slaves.{responders, slaves, one_slave}
use garmin_gpsmap_emu.Machine.Preset.{presets_found, no_stub}

abbrev one_gib : Sizes
one_gib = record {
  ram_size = 0x40000000;
  mpcore = 0x2000;
  l2x0 = 0x1000;
  lan9118 = 0x100;
  serial = 0x20;
}

-- A register of the first clock manager lies in its stub and in the catch-all below it.
cm1_answers :
    (owners 1000 0x4a004120 (regions one_gib) ≡ 1) × (owners 0 0x4a004120 (regions one_gib) ≡ 1)
unfolding owners
cm1_answers = (refl, refl)

one_owner_example : owners 1000 0x4a004120 (regions one_gib) ≤ 1
one_owner_example =
    one_owner one_gib 1000 0x4a004120
      (omega arith, omega arith, omega arith, omega arith, omega arith)

-- The mailbox drives its line, nobody line 99.
line_drivers : (drivers 26 lines ≡ 1) × (drivers 99 lines ≡ 0)
unfolding drivers
line_drivers = (refl, refl)

one_slave_example : responders 0x49 (slaves 0) ≡ (if leb 0x02 0x49 && ltb 0x49 0x78 then 1 else 0)
one_slave_example = one_slave 0 0x49

-- The identification of the chip.
presets_found_example :
    (0x204 + 4 ≤ 0x1000)
    × (0x204 % 4 ≡ 0)
    × (read (λ s addr val. val + addr) (stub_of (get_or stubs 0 no_stub)) 0x204 4
        ≡ 0x2b94e02f + 0x204)
presets_found_example = presets_found 0 1 (λ s addr val. val + addr) (omega arith) (omega arith)
