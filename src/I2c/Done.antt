-- ===== src/I2c/Done.antt =====
-- The deferred completion of an I2C transfer, `omap4_i2c_done_cb` of qemu/hw/arm/garmin_gpsmap.c.
use garmin_gpsmap_emu.Prelude.{ℕ, ◌^◌, ◌<◌, min, max}
use garmin_gpsmap_emu.Prelude.{bit_and, bit_or, has}
use garmin_gpsmap_emu.Prelude.{◌≡◌, refl, arith}
use garmin_gpsmap_emu.Prelude.{true, false, if◌then◌else◌, ◌==◌}
use garmin_gpsmap_emu.Prelude.Bits.{bit, bit_le, bit-and, bit-or}
use garmin_gpsmap_emu.Prelude.Bits.{bit-two_pow, has-flag}
use garmin_gpsmap_emu.I2c.{I2c, refresh, update_irq, complete, done_cb, stat_bf}

module _ {S : Type 0} where
  complete_bits :
      (s : I2c S) (k : ℕ)
      → s.stat < 2 ^ 32
      → s.con < 2 ^ 32
      → (bit (complete s).stat k
          ≡ max (min (bit s.stat k) (bit 0xffff8fef k)) (if k == 8 then bit s.con 1 else 0))
        × (bit (complete s).con k ≡ min (bit s.con k) (bit 0xfffffffc k))
  unfolding complete
  complete_bits s k h g = (
    ground (
      arith,
      has-flag 1 s.con,
      bit_le s.con 1,
      bit_le s.stat k,
      bit-and s.stat 0xffff8fef k,
      bit-or (bit_and s.stat 0xffff8fef) stat_bf k,
      bit-two_pow 8 k,
    ),
    bit-and s.con 0xfffffffc k,
  )

  done_cb_finish :
      (s : I2c S)
      → s.pend_finish ≡ true
      → let st = bit_or (complete s).stat s.pend_stat in
        done_cb s ≡ record (complete s) {
          stat = st;
          pend_stat = 0;
          irq_level = has st s.ie;
          irq = has st s.ie;
        }
  unfolding done_cb update_irq refresh complete
  done_cb_finish s f = rw f

  -- When a finished transfer completes: no direction is active and nothing is deferred any more,
  -- STT and STP are cleared, BB and XRDY go down unless they are deferred themselves, BF goes up
  -- exactly after a STOP (or if it was up), the deferred status arrives, and the interrupt line
  -- is high exactly if an enabled status bit is set.
  done_cb_completes :
      (s : I2c S)
      → s.stat < 2 ^ 32
      → s.con < 2 ^ 32
      → s.pend_finish ≡ true
      → let t = done_cb s in
        (t.tx_active ≡ false)
        × (t.rx_active ≡ false)
        × (t.pend_finish ≡ false)
        × (t.pend_stat ≡ 0)
        × (bit t.con 0 ≡ 0)
        × (bit t.con 1 ≡ 0)
        × (bit t.stat 12 ≡ bit s.pend_stat 12)
        × (bit t.stat 4 ≡ bit s.pend_stat 4)
        × (bit t.stat 8 ≡ max (max (bit s.stat 8) (bit s.con 1)) (bit s.pend_stat 8))
        × (bit t.stat 2 ≡ max (bit s.stat 2) (bit s.pend_stat 2))
        × (t.irq ≡ has t.stat t.ie)
  unfolding complete bit
  done_cb_completes s h g f =
      let d = λ (k : ℕ). (complete_bits s k h g) in
      let o = λ (k : ℕ). (bit-or (complete s).stat s.pend_stat k) in
      rw (done_cb_finish s f) (
        refl,
        refl,
        refl,
        refl,
        omega (arith, d 0),
        omega (arith, d 1),
        omega (arith, d 12, o 12),
        omega (arith, d 4, o 4),
        omega (arith, d 8, o 8, bit_le s.stat 8),
        omega (arith, d 2, o 2, bit_le s.stat 2),
        refl,
      )
