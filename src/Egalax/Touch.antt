-- ===== src/Egalax/Touch.antt =====
-- The input side of the touch controller: QEMU's pointer events, the report stream while the
-- finger is down, and the minimum time that a press is held.
use garmin_gpsmap_emu.Prelude.{ℕ, ◌+◌, ◌-◌, ◌*◌, min}
use garmin_gpsmap_emu.Prelude.{bit_and, bit_or, u8, not32, shr}
use garmin_gpsmap_emu.Prelude.{Bool, true, false, not, ◌&&◌, if◌then◌else◌, ◌==◌, leb}
use garmin_gpsmap_emu.Prelude.{none, some, [], ◌∷◌}
use garmin_gpsmap_emu.Egalax.{Egalax, max_xy, queue_frame}

-- `negsuc n` is -(n + 1).
pub data ℤ : Type 0 where
  pos : ℕ → ℤ
  negsuc : ℕ → ℤ

pub data Axis : Type 0 where
  x_axis y_axis : Axis

-- The events that the handler acts on; `button` is the left one.
pub data Input : Type 0 where
  absolute : Axis → ℤ → Input
  relative : Axis → ℤ → Input
  button : Bool → Input
  other : Input

abbrev pub repeat_ns : ℕ
repeat_ns = 10 * 1000000

abbrev pub min_hold_ns : ℕ
min_hold_ns = 1500 * 1000000

unfoldable pub queue_touch : Egalax → Bool → Egalax
queue_touch s down =
    let x = max_xy - s.x in
    let y = max_xy - s.y in
    queue_frame s (
      0x04
      ∷ bit_or 0x80 (if down then 1 else 0)
      ∷ bit_and x 0xff
      ∷ u8 (shr x 8)
      ∷ bit_and y 0xff
      ∷ u8 (shr y 8)
      ∷ (if down then 0x40 else 0)
      ∷ 0
      ∷ 0
      ∷ 0
      ∷ [])

-- `CLAMP(at + move * 32, 0, EGALAX_MAX_XY)`.
unfoldable pub clamp_move : ℕ → ℤ → ℕ
clamp_move at (pos n) = min (at + n * 32) max_xy
clamp_move at (negsuc n) = min (at - (n + 1) * 32) max_xy

-- `scale_axis` is QEMU's `qemu_input_scale_axis` from the range of absolute events to 0..max_xy.
module _ (scale_axis : ℤ → ℕ) where
  unfoldable pub input_event : Egalax → Input → Egalax
  input_event s (absolute x_axis v) = record s {
    x = bit_and (scale_axis v) (not32 7);
    moved = true;
  }
  input_event s (absolute y_axis v) = record s {
    y = bit_and (scale_axis v) (not32 7);
    moved = true;
  }
  input_event s (relative x_axis v) = record s {
    x = bit_and (clamp_move s.x v) (not32 7);
    moved = true;
  }
  input_event s (relative y_axis v) = record s {
    y = bit_and (clamp_move s.y v) (not32 7);
    moved = true;
  }
  input_event s (button down) = record s { pressed = down }
  input_event s other = s

unfoldable pub release : Egalax → Egalax
release s = record (queue_touch (record s { release_pending = false }) false) { repeat = none }

unfoldable pub repeat_cb : Egalax → ℕ → Egalax
repeat_cb s now =
    if s.release_pending && leb (s.press_ns + min_hold_ns) now
    then release s
    else if not s.pressed && not s.release_pending
    then s
    else let t = if s.q_count == 0 then queue_touch s true else s in
      record t { repeat = some (now + repeat_ns) }

unfoldable pub input_sync : Egalax → ℕ → Egalax
input_sync s now =
    let differs = if s.pressed then not s.last_sent_pressed else s.last_sent_pressed in
    let a = record s { last_sent_pressed = s.pressed } in
    let t =
      if differs
      then (if s.pressed
          then record (queue_touch (record a { release_pending = false; press_ns = now }) true) {
            repeat = some (now + repeat_ns);
          }
          else if leb (s.press_ns + min_hold_ns) now
          then release a
          else record a { release_pending = true })
      else if s.pressed && s.moved
      then queue_touch s true
      else s in
    record t { moved = false }
