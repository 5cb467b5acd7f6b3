-- ===== src/Sgx/Event.antt =====
-- The events of the SGX shim in qemu/hw/arm/garmin_gpsmap.c, from the microkernel's side to the
-- acknowledge of the driver.
use garmin_gpsmap_emu.Prelude.{ℕ, ◌-◌, ◌<◌, min, max}
use garmin_gpsmap_emu.Prelude.{bit_and, bit_or, u32, not32, nonzero, has}
use garmin_gpsmap_emu.Prelude.{◌≡◌, refl, arith}
use garmin_gpsmap_emu.Prelude.{true, ◌||◌, if◌then◌else◌, ◌==◌}
use garmin_gpsmap_emu.Prelude.Bits.{bit, bit-and, bit-or, bit-mod, bit-not32}
use garmin_gpsmap_emu.Prelude.Bits.{bit-two_pow}
use garmin_gpsmap_emu.Prelude.Fields.{bit_or-le_left, bit_or-le_right, bit_or-zero_zero}
use garmin_gpsmap_emu.Sgx.{
  Sgx, GpuOps, reg, update_irq, event_cb, raise_event, event_status, event_status2,
  event_host_enable, event_host_enable2, event_host_clear, event_master,
}
use garmin_gpsmap_emu.Sgx.Kick.{event_hook, kick_hook, write_hook}

-- The line is up exactly if one of the two status words has an enabled bit.
unfoldable pub FollowsStatus : {M : Type 0} → Sgx M → Type 0
FollowsStatus s = s.irq ≡ (
    has (reg s event_status) (reg s event_host_enable)
    || has (reg s event_status2) (reg s event_host_enable2))

or_test : (a b : ℕ) → nonzero (bit_or a b) ≡ (nonzero a || nonzero b)
or_test a b = ground (arith, bit_or-le_left a b, bit_or-le_right a b, bit_or-zero_zero a b)

module _ {M : Type 0} where
  update_irq-FollowsStatus : (s : Sgx M) → FollowsStatus (update_irq s)
  unfolding FollowsStatus update_irq
  update_irq-FollowsStatus s =
      or_test (bit_and (reg s event_status) (reg s event_host_enable))
        (bit_and (reg s event_status2) (reg s event_host_enable2))

  -- An event is raised and its timer fires; then the driver acknowledges with `val`.
  unfoldable pub delivered : Sgx M → ℕ → ℕ → Sgx M
  delivered s mask now = event_cb (raise_event s mask now)

  delivered_status :
      (s : Sgx M) (mask now : ℕ)
      → reg (delivered s mask now) event_status
        ≡ bit_or (reg s event_status) (bit_or (bit_or s.pending_events mask) event_master)
  unfolding delivered event_cb raise_event update_irq
  delivered_status s mask now = refl

  bit-delivered :
      (s : Sgx M) (mask now k : ℕ)
      → bit (reg (delivered s mask now) event_status) k
        ≡ max
            (bit (reg s event_status) k)
            (max (max (bit s.pending_events k) (bit mask k)) (if k == 31 then 1 else 0))
  bit-delivered s mask now k =
      rw
        (
          delivered_status s mask now,
          bit-or (reg s event_status) (bit_or (bit_or s.pending_events mask) event_master) k,
          bit-or (bit_or s.pending_events mask) event_master k,
          bit-or s.pending_events mask k,
          bit-two_pow 31 k,
        )
        refl

  delivered_follows : (s : Sgx M) (mask now : ℕ) → FollowsStatus (delivered s mask now)
  unfolding delivered event_cb
  delivered_follows s mask now = update_irq-FollowsStatus _

module _ {M : Type 0} (ops : GpuOps M) where
  abbrev pub acknowledged : Sgx M → ℕ → ℕ → Sgx M
  acknowledged s val now = write_hook ops true s event_host_clear val now

  acknowledged_status :
      (s : Sgx M) (val now : ℕ)
      → reg (acknowledged s val now) event_status ≡ bit_and (reg s event_status) (not32 (u32 val))
  unfolding write_hook kick_hook event_hook update_irq
  acknowledged_status s val now = refl

  bit-acknowledged :
      (s : Sgx M) (val now k : ℕ)
      → k < 32
      → bit (reg (acknowledged s val now) event_status) k
        ≡ min (bit (reg s event_status) k) (1 - bit val k)
  bit-acknowledged s val now k h =
      rw
        (
          acknowledged_status s val now,
          bit-and (reg s event_status) (not32 (u32 val)) k,
          bit-not32 (u32 val) k h,
          bit-mod 32 k val h,
        )
        refl

  acknowledged_follows : (s : Sgx M) (val now : ℕ) → FollowsStatus (acknowledged s val now)
  unfolding write_hook kick_hook event_hook
  acknowledged_follows s val now = update_irq-FollowsStatus _

  -- When an event is raised and its timer fires, each bit of the status word is up exactly if it
  -- was up, was waiting, is one of the event's, or is the master bit 31; when the driver then writes
  -- HOST_CLEAR, exactly the bits of the written word go down. Both times the line is up exactly if a
  -- status word has an enabled bit.
  delivers_acknowledges :
      (s : Sgx M) (mask val now later k : ℕ)
      → k < 32
      → (bit (reg (delivered s mask now) event_status) k
          ≡ max
              (bit (reg s event_status) k)
              (max (max (bit s.pending_events k) (bit mask k)) (if k == 31 then 1 else 0)))
        × FollowsStatus (delivered s mask now)
        × (bit (reg (acknowledged (delivered s mask now) val later) event_status) k
            ≡ min (bit (reg (delivered s mask now) event_status) k) (1 - bit val k))
        × FollowsStatus (acknowledged (delivered s mask now) val later)
  delivers_acknowledges s mask val now later k h = (
    bit-delivered s mask now k,
    delivered_follows s mask now,
    bit-acknowledged (delivered s mask now) val later k h,
    acknowledged_follows (delivered s mask now) val later,
  )
