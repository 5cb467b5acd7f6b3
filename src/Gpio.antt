-- ===== src/Gpio.antt =====
-- The OMAP4 GPIO bank of qemu/hw/arm/garmin_gpsmap.c (`struct Omap4Gpio`): the registers, the
-- level-sensitive interrupt detection and the input lines that board devices drive.
-- `irq` is the level last given to `qemu_set_irq`; the arrays of two words are two fields each.
pub mod Irq
pub mod Pins
mod Tests
use garmin_gpsmap_emu.Prelude.{
  ℕ, ◌==◌, ◌^◌, bit_and, bit_or, Bool, if◌then◌else◌, u32, not32, not64, has,
}

pub record Gpio : Type 0 where
  pub irq : Bool
  pub datain : ℕ
  pub sysconfig : ℕ
  pub ctrl : ℕ
  pub oe : ℕ
  pub dataout : ℕ
  pub irqstatus0 : ℕ
  pub irqstatus1 : ℕ
  pub irqenable0 : ℕ
  pub irqenable1 : ℕ
  pub irqwaken0 : ℕ
  pub irqwaken1 : ℕ
  pub leveldetect0 : ℕ
  pub leveldetect1 : ℕ
  pub risingdetect : ℕ
  pub fallingdetect : ℕ
  pub debounceenable : ℕ
  pub debouncingtime : ℕ

-- The case labels of the two switch statements over the register address.
pub data Reg : Type 0 where
  revision sysconfig eoi irqstatus_raw0 irqstatus_raw1 irqstatus0 irqstatus1 : Reg
  irqenable_set0 irqenable_set1 irqenable_clr0 irqenable_clr1 irqwaken0 irqwaken1 : Reg
  sysstatus ctrl oe datain dataout leveldetect0 leveldetect1 risingdetect fallingdetect : Reg
  debounceenable debouncingtime cleardataout setdataout unimplemented : Reg

unfoldable pub decode : ℕ → Reg
decode addr =
    if addr == 0x000
    then revision
    else if addr == 0x010
    then sysconfig
    else if addr == 0x020
    then eoi
    else if addr == 0x024
    then irqstatus_raw0
    else if addr == 0x028
    then irqstatus_raw1
    else if addr == 0x02c
    then irqstatus0
    else if addr == 0x030
    then irqstatus1
    else if addr == 0x034
    then irqenable_set0
    else if addr == 0x038
    then irqenable_set1
    else if addr == 0x03c
    then irqenable_clr0
    else if addr == 0x040
    then irqenable_clr1
    else if addr == 0x044
    then irqwaken0
    else if addr == 0x048
    then irqwaken1
    else if addr == 0x114
    then sysstatus
    else if addr == 0x130
    then ctrl
    else if addr == 0x134
    then oe
    else if addr == 0x138
    then datain
    else if addr == 0x13c
    then dataout
    else if addr == 0x140
    then leveldetect0
    else if addr == 0x144
    then leveldetect1
    else if addr == 0x148
    then risingdetect
    else if addr == 0x14c
    then fallingdetect
    else if addr == 0x150
    then debounceenable
    else if addr == 0x154
    then debouncingtime
    else if addr == 0x190
    then cleardataout
    else if addr == 0x194
    then setdataout
    else unimplemented

-- Pins driven as outputs read back their DATAOUT value.
unfoldable pub input : Gpio → ℕ
input s = bit_or (bit_and s.datain s.oe) (bit_and s.dataout (not32 s.oe))

unfoldable pub level : Gpio → ℕ
level s =
    let in_ = input s in bit_or (bit_and s.leveldetect0 (not32 in_)) (bit_and s.leveldetect1 in_)

unfoldable pub update_irq : Gpio → Gpio
update_irq s =
    let st0 = bit_or s.irqstatus0 (bit_and (level s) s.irqenable0) in
    let st1 = bit_or s.irqstatus1 (bit_and (level s) s.irqenable1) in
    record s { irqstatus0 = st0; irqstatus1 = st1; irq = has st0 s.irqenable0 }

-- A board device drives pin `pin` (below 32).
unfoldable pub set_pin : Gpio → ℕ → Bool → Gpio
set_pin s pin lvl =
    let old = s.datain in
    let b = u32 (2 ^ pin) in
    let new = if lvl then bit_or old b else bit_and old (not32 b) in
    if new == old then s else update_irq (record s { datain = new })

unfoldable pub read_reg : Gpio → Reg → ℕ
read_reg s revision = 0x50600801
read_reg s sysconfig = s.sysconfig
read_reg s eoi = 0
read_reg s irqstatus_raw0 = s.irqstatus0
read_reg s irqstatus_raw1 = s.irqstatus1
read_reg s irqstatus0 = bit_and s.irqstatus0 s.irqenable0
read_reg s irqstatus1 = bit_and s.irqstatus1 s.irqenable1
read_reg s irqenable_set0 = s.irqenable0
read_reg s irqenable_set1 = s.irqenable1
read_reg s irqenable_clr0 = s.irqenable0
read_reg s irqenable_clr1 = s.irqenable1
read_reg s irqwaken0 = s.irqwaken0
read_reg s irqwaken1 = s.irqwaken1
read_reg s sysstatus = 1
read_reg s ctrl = s.ctrl
read_reg s oe = s.oe
read_reg s datain = input s
read_reg s dataout = s.dataout
read_reg s leveldetect0 = s.leveldetect0
read_reg s leveldetect1 = s.leveldetect1
read_reg s risingdetect = s.risingdetect
read_reg s fallingdetect = s.fallingdetect
read_reg s debounceenable = s.debounceenable
read_reg s debouncingtime = s.debouncingtime
read_reg s cleardataout = s.dataout
read_reg s setdataout = s.dataout
read_reg s unimplemented = 0

unfoldable pub read : Gpio → ℕ → ℕ
read s addr = read_reg s (decode addr)

-- `val` is the 64-bit argument of the handler; a plain store keeps its low 32 bits.
unfoldable pub write_reg : Gpio → Reg → ℕ → Gpio
write_reg s sysconfig val = record s { sysconfig = u32 (bit_and val (not32 2)) }
write_reg s eoi val = s
write_reg s irqstatus_raw0 val =
    update_irq (record s { irqstatus0 = u32 (bit_or s.irqstatus0 val) })
write_reg s irqstatus_raw1 val = record s { irqstatus1 = u32 (bit_or s.irqstatus1 val) }
write_reg s irqstatus0 val = update_irq (record s { irqstatus0 = bit_and s.irqstatus0 (not64 val) })
write_reg s irqstatus1 val = record s { irqstatus1 = bit_and s.irqstatus1 (not64 val) }
write_reg s irqenable_set0 val =
    update_irq (record s { irqenable0 = u32 (bit_or s.irqenable0 val) })
write_reg s irqenable_set1 val =
    update_irq (record s { irqenable1 = u32 (bit_or s.irqenable1 val) })
write_reg s irqenable_clr0 val =
    update_irq (record s { irqenable0 = bit_and s.irqenable0 (not64 val) })
write_reg s irqenable_clr1 val = record s { irqenable1 = bit_and s.irqenable1 (not64 val) }
write_reg s irqwaken0 val = record s { irqwaken0 = u32 val }
write_reg s irqwaken1 val = record s { irqwaken1 = u32 val }
write_reg s ctrl val = record s { ctrl = u32 val }
write_reg s oe val = update_irq (record s { oe = u32 val })
write_reg s dataout val = update_irq (record s { dataout = u32 val })
write_reg s leveldetect0 val = update_irq (record s { leveldetect0 = u32 val })
write_reg s leveldetect1 val = update_irq (record s { leveldetect1 = u32 val })
write_reg s risingdetect val = update_irq (record s { risingdetect = u32 val })
write_reg s fallingdetect val = update_irq (record s { fallingdetect = u32 val })
write_reg s debounceenable val = record s { debounceenable = u32 val }
write_reg s debouncingtime val = record s { debouncingtime = u32 val }
write_reg s cleardataout val = update_irq (record s { dataout = bit_and s.dataout (not64 val) })
write_reg s setdataout val = update_irq (record s { dataout = u32 (bit_or s.dataout val) })
write_reg s _ val = s

unfoldable pub write : Gpio → ℕ → ℕ → Gpio
write s addr val = write_reg s (decode addr) val

-- The line level and the input pins are left as they are.
unfoldable pub reset : Gpio → Gpio
reset s = record s {
  sysconfig = 0;
  ctrl = 0;
  oe = 0xffffffff;
  dataout = 0;
  irqstatus0 = 0;
  irqstatus1 = 0;
  irqenable0 = 0;
  irqenable1 = 0;
  irqwaken0 = 0;
  irqwaken1 = 0;
  leveldetect0 = 0;
  leveldetect1 = 0;
  risingdetect = 0;
  fallingdetect = 0;
  debounceenable = 0;
  debouncingtime = 0;
}
