-- ===== src/Dispc/Tests.antt =====
-- The properties of the display controller at concrete registers and bytes.
use garmin_gpsmap_emu.Prelude.{ℕ, ◌+◌, ◌-◌, ◌*◌, ◌%◌, min, max}
use garmin_gpsmap_emu.Prelude.{has}
use garmin_gpsmap_emu.Prelude.{◌≡◌, refl, arith}
use garmin_gpsmap_emu.Prelude.{true, false}
use garmin_gpsmap_emu.Prelude.{none, some}
use garmin_gpsmap_emu.Prelude.{update}
use garmin_gpsmap_emu.Prelude.Bits.{bit}
use garmin_gpsmap_emu.Dispc.{Dispc, reg, frame_ns, vsync_cb, write, read, channel, update_irq}
use garmin_gpsmap_emu.Dispc.Draw.{width, pixel, draw, draw_rows, draw_row, row_gap, bytes_per_pixel}
use garmin_gpsmap_emu.Dispc.Scanout.{draw-rgb16}
use garmin_gpsmap_emu.Dispc.Frame.{lcd2, frame_handshake, sync_bit, control_of, go_bit, enable_bit}

-- LCD2 on and its GO bit set, VSYNC2 enabled, a picture of 2 by 2 in RGB16 with a gap of 2 bytes.
abbrev small_regs : ℕ → ℕ
small_regs =
    update
      (update (update (update (update (update (λ i. 0) 142 0x21) 7 0x40000) 40 0x8d) 35 0x10001) 43
        3)
      32 0x100

abbrev small : Dispc
small = record {
  irq = false;
  vsync = none;
  regs = small_regs;
  invalidate = false;
  cur_w = 0;
  cur_h = 0;
  scanout = 0;
}

abbrev counting : ℕ → ℕ
counting k = k % 256

abbrev two_bytes : ℕ → ℕ
two_bytes = update (update (λ i. 0) 0x108 0x23) 0x109 0xf8

draw-rgb16_example :
    (draw two_bytes (λ w. w + 2) (λ q. 0) small (λ q. 0)).1 (1 * (width small + 2) + 1)
    ≡ 31 * 8 * 65536 + 1 * 4 * 256 + 3 * 8
unfolding row_gap
draw-rgb16_example =
    draw-rgb16 two_bytes (λ w. w + 2) (λ q. 0) small (λ q. 0) 1 1 31 1 3 refl refl (omega arith)
      (omega arith) (omega arith) (omega arith) (omega arith) (omega arith) (omega arith) refl refl

-- The same word of a memory that counts: the bytes 0x08 and 0x09.
shown : (draw counting (λ w. w + 2) (λ q. 0) small (λ q. 0)).1 5 ≡ 0x082040
unfolding draw draw_rows draw_row pixel bytes_per_pixel row_gap
shown = refl

frame_handshake_example :
    let t = vsync_cb small 1000 in
    let acknowledged = write t 0x18 (read t 0x18) 1000 in
    (bit (reg t 0x18) (sync_bit lcd2)
      ≡ max
          (bit (reg small 0x18) (sync_bit lcd2))
          (bit (reg small (control_of lcd2)) (enable_bit lcd2)))
    × (bit (reg t (control_of lcd2)) (go_bit lcd2)
        ≡ min
            (bit (reg small (control_of lcd2)) (go_bit lcd2))
            (1 - bit (reg small (control_of lcd2)) (enable_bit lcd2)))
    × (t.irq ≡ has (reg t 0x18) (reg small 0x1c))
    × (t.vsync ≡ some (1000 + frame_ns))
    × (reg acknowledged 0x18 ≡ 0)
    × (acknowledged.irq ≡ false)
frame_handshake_example = frame_handshake small 1000 lcd2 (omega arith)

-- The frame's interrupt is up, and its deadline set.
frame :
    ((vsync_cb small 1000).irq ≡ true)
    × (reg (vsync_cb small 1000) 0x238 ≡ 1)
    × ((vsync_cb small 1000).vsync ≡ some 16667666)
frame = unfold vsync_cb channel update_irq in (refl, refl, refl)
