-- ===== src/Gpio/Tests.antt =====
-- A bank after reset with pin 12 (the touch controller's INT) low, and the theorems at it.
use garmin_gpsmap_emu.Prelude.{◌≡◌, refl, arith}
use garmin_gpsmap_emu.Prelude.{true, false}
use garmin_gpsmap_emu.Prelude.{List, [], ◌∷◌, ◌++◌}
use garmin_gpsmap_emu.Prelude.Bits.{bit-eq_zero}
use garmin_gpsmap_emu.Gpio.{
  Gpio, decode, input, level, update_irq, set_pin, read_reg, read, write_reg, write,
}
use garmin_gpsmap_emu.Gpio.Irq.{IsSound, Event, access, drive, run, run-IsSound}
use garmin_gpsmap_emu.Gpio.Pins.{IsWords}

abbrev bank : Gpio
bank = record {
  irq = false;
  datain = 0xffffffff;
  sysconfig = 0;
  ctrl = 0;
  oe = 0xffffefff;
  dataout = 0x1000;
  irqstatus0 = 0;
  irqstatus1 = 0;
  irqenable0 = 0;
  irqenable1 = 0;
  irqwaken0 = 0;
  irqwaken1 = 0;
  leveldetect0 = 0;
  leveldetect1 = 0;
  risingdetect = 0;
  fallingdetect = 0;
  debounceenable = 0;
  debouncingtime = 0;
}

-- LEVELDETECT0 and IRQENABLE_SET_0 for pin 4, the line goes low, the guest acknowledges.
abbrev script : List Event
script = access 0x140 0x10 ∷ access 0x034 0x10 ∷ drive 4 false ∷ access 0x02c 0x10 ∷ []

script_raises : ((run bank script).irq ≡ true) × (read (run bank script) 0x02c ≡ 0x10)
unfolding run write decode write_reg update_irq level input set_pin read read_reg
script_raises = (refl, refl)

script_falls : (run bank (script ++ drive 4 true ∷ access 0x02c 0x10 ∷ [])).irq ≡ false
unfolding run write decode write_reg update_irq level input set_pin
script_falls = refl

bank-IsSound : IsSound bank
unfolding level input
bank-IsSound = record {
  line = refl;
  latched = λ k h e. absurd (omega (arith, bit-eq_zero 0 k 0 (omega arith) (omega arith)));
}

bank-IsWords : IsWords bank
bank-IsWords = omega arith

run-IsSound_example : IsSound (run bank script)
run-IsSound_example = run-IsSound bank script bank-IsSound
