-- ===== src/Gpio/Pins.antt =====
-- The pins of a GPIO bank as the guest reads and acknowledges them, pin by pin.
use garmin_gpsmap_emu.Prelude.{ℕ, ◌-◌, ◌^◌, ◌≤◌, ◌<◌, min, max}
use garmin_gpsmap_emu.Prelude.{bit_and, bit_or, u32, not32, not64}
use garmin_gpsmap_emu.Prelude.{◌≡◌, arith}
use garmin_gpsmap_emu.Prelude.Bits.{bit, bit_le, bit-and, bit-or, bit-mod, bit-not32, bit-clear}
use garmin_gpsmap_emu.Gpio.{
  Gpio, update_irq, level, input, write_reg, write, read_reg, read, decode,
}

-- The words of a bank are 32 bits wide.
pub record IsWords (s : Gpio) : Type 0 where
  pub datain : s.datain < 2 ^ 32
  pub dataout : s.dataout < 2 ^ 32
  pub irqstatus0 : s.irqstatus0 < 2 ^ 32

-- Pin `k` of DATAIN is the input line if OE has the pin as an input, and DATAOUT else.
bit-input :
    (s : Gpio) (k : ℕ)
    → k < 32
    → bit (input s) k
      ≡ max (min (bit s.datain k) (bit s.oe k)) (min (bit s.dataout k) (1 - bit s.oe k))
unfolding input
bit-input s k h = omega (
  arith,
  bit-or (bit_and s.datain s.oe) (bit_and s.dataout (not32 s.oe)) k,
  bit-and s.datain s.oe k,
  bit-and s.dataout (not32 s.oe) k,
  bit-not32 s.oe k h,
)

digits :
    (s : Gpio) (val k : ℕ)
    → (bit s.oe k ≤ 1) × (bit val k ≤ 1) × (bit s.datain k ≤ 1) × (bit s.dataout k ≤ 1)
digits s val k = (bit_le s.oe k, bit_le val k, bit_le s.datain k, bit_le s.dataout k)

-- Writes of SETDATAOUT and CLEARDATAOUT drive, high and low, exactly the output pins named by the
-- written word; the other outputs and all inputs read back from DATAIN as before.
setdataout-cleardataout :
    (s : Gpio) (val k : ℕ)
    → IsWords s
    → k < 32
    → (bit (read (write s 0x194 val) 0x138) k
        ≡ max (bit (read s 0x138) k) (min (bit val k) (1 - bit s.oe k)))
      × (bit (read (write s 0x190 val) 0x138) k
          ≡ min (bit (read s 0x138) k) (max (bit s.oe k) (1 - bit val k)))
unfolding read write decode read_reg write_reg update_irq
setdataout-cleardataout s val k v h = (
  omega (
    arith,
    bit-input s k h,
    bit-input (update_irq (record s { dataout = u32 (bit_or s.dataout val) })) k h,
    bit-mod 32 k (bit_or s.dataout val) h,
    bit-or s.dataout val k,
    digits s val k,
  ),
  omega (
    arith,
    bit-input s k h,
    bit-input (update_irq (record s { dataout = bit_and s.dataout (not64 val) })) k h,
    bit-clear s.dataout val k v.dataout,
    digits s val k,
  ),
)

-- Acknowledging (a write of 1s to IRQSTATUS of bank 0) clears exactly the written bits, but a
-- level that is still present on an enabled pin stays pending.
acknowledge :
    (s : Gpio) (val k : ℕ)
    → IsWords s
    → k < 32
    → bit (write s 0x02c val).irqstatus0 k
      ≡ max (min (bit s.irqstatus0 k) (1 - bit val k)) (min (bit (level s) k) (bit s.irqenable0 k))
unfolding write decode write_reg update_irq level input
acknowledge s val k v h = omega (
  arith,
  bit-or (bit_and s.irqstatus0 (not64 val)) (bit_and (level s) s.irqenable0) k,
  bit-and (level s) s.irqenable0 k,
  bit-clear s.irqstatus0 val k v.irqstatus0,
)
