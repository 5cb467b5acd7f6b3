-- ===== src/Dispc/Frame.antt =====
-- One frame of the display controller, as the driver sees it.
use garmin_gpsmap_emu.Prelude.{ℕ, ◌+◌, ◌-◌, ◌^◌, ◌<◌, min, max}
use garmin_gpsmap_emu.Prelude.{has}
use garmin_gpsmap_emu.Prelude.{◌≡◌, refl, ap, ◌∙◌, arith}
use garmin_gpsmap_emu.Prelude.{false}
use garmin_gpsmap_emu.Prelude.{some}
use garmin_gpsmap_emu.Prelude.Bits.{bit, bit_le, bit-or}
use garmin_gpsmap_emu.Prelude.Bits.{bit-eq_zero}
use garmin_gpsmap_emu.Prelude.Bits.{bit_or-lt, bit-two_pow}
use garmin_gpsmap_emu.Dispc.{Dispc, reg, irq_lcd, irq_tv, irq_lcd2, frame_ns}
use garmin_gpsmap_emu.Dispc.{update_irq, vsync_cb, read, write}
use garmin_gpsmap_emu.Dispc.Channel.{
  cleared, raised, bit-cleared, frame_regs, bit-raised, raised-lt, and_not_self, bit_and-zero_left,
}

-- The three outputs, with the places of their bits.
pub data Output : Type 0 where
  lcd : Output
  tv : Output
  lcd2 : Output

unfoldable pub control_of : Output → ℕ
control_of lcd = 0x40
control_of tv = 0x40
control_of lcd2 = 0x238

unfoldable pub enable_bit : Output → ℕ
enable_bit lcd = 0
enable_bit tv = 1
enable_bit lcd2 = 0

unfoldable pub go_bit : Output → ℕ
go_bit lcd = 5
go_bit tv = 6
go_bit lcd2 = 5

-- VSYNC, EVSYNC_EVEN and VSYNC2.
unfoldable pub sync_bit : Output → ℕ
sync_bit lcd = 1
sync_bit tv = 2
sync_bit lcd2 = 18

status-lt : (s : Dispc) (now : ℕ) → reg s 0x18 < 2 ^ 32 → reg (vsync_cb s now) 0x18 < 2 ^ 32
status-lt s now h =
    let c = cleared (reg s 0x40) 0 5 in
    let lcd_irq = raised (reg s 0x40) 0 irq_lcd 0 in
    let tv_irq = raised c 1 irq_tv lcd_irq in
    let e = (frame_regs s now).2 in
    let bound = raised-lt (reg s 0x238) 0 irq_lcd2 tv_irq (omega arith) (
      raised-lt c 1 irq_tv lcd_irq (omega arith)
        (raised-lt (reg s 0x40) 0 irq_lcd 0 (omega arith) (omega arith))) in
    rw e (bit_or-lt 32 (reg s 0x18) (raised (reg s 0x238) 0 irq_lcd2 tv_irq) h bound)

acknowledge :
    (t : Dispc) (now : ℕ)
    → reg t 0x18 < 2 ^ 32
    → (reg (write t 0x18 (read t 0x18) now) 0x18 ≡ 0)
      × ((write t 0x18 (read t 0x18) now).irq ≡ false)
unfolding write read update_irq
acknowledge t now h =
    let e = and_not_self (reg t 0x18) h in
    (e, ap (λ x. has x (reg t 0x1c)) e ∙ rw (bit_and-zero_left (reg t 0x1c)) refl)

-- GOLCD is not the enable bit of the TV output.
kept_enable : (x : ℕ) → bit (cleared x 0 5) 1 ≡ bit x 1
kept_enable x = bit-cleared x 0 5 1 (omega arith) ∙ ground (arith, bit-two_pow 5 1, bit_le x 1)

sync_digit :
    (s : Dispc) (now k : ℕ)
    → bit (reg (vsync_cb s now) 0x18) k
      ≡ max (bit (reg s 0x18) k) (
          max
            (max
              (min (bit (reg s 0x40) 0) (bit irq_lcd k))
              (min (bit (reg s 0x40) 1) (bit irq_tv k)))
            (min (bit (reg s 0x238) 0) (bit irq_lcd2 k)))
sync_digit s now k =
    let c = cleared (reg s 0x40) 0 5 in
    let lcd_irq = raised (reg s 0x40) 0 irq_lcd 0 in
    let tv_irq = raised c 1 irq_tv lcd_irq in
    let e = (frame_regs s now).2 in
    let none_yet : bit 0 k ≡ 0 = bit-eq_zero 0 k 0 (omega arith) (omega arith) in
    let nothing : max 0 (min (bit (reg s 0x40) 0) (bit irq_lcd k))
        ≡ min (bit (reg s 0x40) 0) (bit irq_lcd k) =
      omega arith in
    rw
      (
        e,
        bit-or (reg s 0x18) (raised (reg s 0x238) 0 irq_lcd2 tv_irq) k,
        bit-raised (reg s 0x238) 0 irq_lcd2 tv_irq k,
        bit-raised c 1 irq_tv lcd_irq k,
        bit-raised (reg s 0x40) 0 irq_lcd 0 k,
        none_yet,
        kept_enable (reg s 0x40),
        nothing,
      )
      refl

sync_pending :
    (s : Dispc) (now : ℕ) (o : Output)
    → bit (reg (vsync_cb s now) 0x18) (sync_bit o)
      ≡ max (bit (reg s 0x18) (sync_bit o)) (bit (reg s (control_of o)) (enable_bit o))
unfolding sync_bit control_of enable_bit bit
sync_pending s now lcd = omega (
  arith,
  sync_digit s now 1,
  bit_le (reg s 0x40) 0,
  bit_le (reg s 0x40) 1,
  bit_le (reg s 0x238) 0,
)
sync_pending s now tv = omega (
  arith,
  sync_digit s now 2,
  bit_le (reg s 0x40) 0,
  bit_le (reg s 0x40) 1,
  bit_le (reg s 0x238) 0,
)
sync_pending s now lcd2 = omega (
  arith,
  sync_digit s now 18,
  bit_le (reg s 0x40) 0,
  bit_le (reg s 0x40) 1,
  bit_le (reg s 0x238) 0,
)

-- A digit of CONTROL1 after a frame.
control1_digit :
    (s : Dispc) (now k : ℕ)
    → k < 32
    → bit (reg (vsync_cb s now) 0x40) k
      ≡ min
          (min (bit (reg s 0x40) k) (1 - min (bit (reg s 0x40) 0) (bit (2 ^ 5) k)))
          (1 - min (bit (reg s 0x40) 1) (bit (2 ^ 6) k))
control1_digit s now k h =
    let c = cleared (reg s 0x40) 0 5 in
    let e = (frame_regs s now).0 in
    rw (e, bit-cleared c 1 6 k h, bit-cleared (reg s 0x40) 0 5 k h, kept_enable (reg s 0x40)) refl

go_clear :
    (s : Dispc) (now : ℕ) (o : Output)
    → bit (reg (vsync_cb s now) (control_of o)) (go_bit o)
      ≡ min (bit (reg s (control_of o)) (go_bit o)) (1 - bit (reg s (control_of o)) (enable_bit o))
unfolding go_bit control_of enable_bit bit
go_clear s now lcd = omega (arith, control1_digit s now 5 (omega arith))
go_clear s now tv = omega (arith, control1_digit s now 6 (omega arith))
go_clear s now lcd2 =
    let e = (frame_regs s now).1 in
    rw e (omega (arith, bit-cleared (reg s 0x238) 0 5 5 (omega arith)))

-- After a frame the sync bit of an output is pending when it was or the output is on, the GO bit of an
-- output that is on is clear and that of an output that is off as it was, the interrupt line is up
-- exactly when an enabled bit is pending, and the callback is due again a frame later. Writing
-- the status register back to itself then clears it, if it is a word, and lowers the line.
pub frame_handshake :
    (s : Dispc) (now : ℕ) (o : Output)
    → reg s 0x18 < 2 ^ 32
    → let t = vsync_cb s now in
      let acknowledged = write t 0x18 (read t 0x18) now in
      (bit (reg t 0x18) (sync_bit o)
        ≡ max (bit (reg s 0x18) (sync_bit o)) (bit (reg s (control_of o)) (enable_bit o)))
      × (bit (reg t (control_of o)) (go_bit o)
          ≡ min
              (bit (reg s (control_of o)) (go_bit o))
              (1 - bit (reg s (control_of o)) (enable_bit o)))
      × (t.irq ≡ has (reg t 0x18) (reg s 0x1c))
      × (t.vsync ≡ some (now + frame_ns))
      × (reg acknowledged 0x18 ≡ 0)
      × (acknowledged.irq ≡ false)
frame_handshake s now o h =
    let (clear, low) = acknowledge (vsync_cb s now) now (status-lt s now h) in
    (
      sync_pending s now o,
      go_clear s now o,
      (frame_regs s now).3,
      (unfold vsync_cb in refl),
      clear,
      low,
    )
