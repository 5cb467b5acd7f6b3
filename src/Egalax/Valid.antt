-- ===== src/Egalax/Valid.antt =====
-- The indices and the INT line of the touch controller of qemu/hw/arm/garmin_gpsmap.c, under any
-- sequence of what the I2C master and the pointer do.
use garmin_gpsmap_emu.Prelude.{ℕ, ◌+◌, ◌%◌, ◌≤◌, ◌<◌, min}
use garmin_gpsmap_emu.Prelude.{u8, not32}
use garmin_gpsmap_emu.Prelude.{◌≡◌, refl, ◌∙◌, arith}
use garmin_gpsmap_emu.Prelude.{Bool, true, false, ◌==◌}
use garmin_gpsmap_emu.Prelude.{List, [], ◌∷◌}
use garmin_gpsmap_emu.Prelude.{length, get_or, set, take, drop}
use garmin_gpsmap_emu.Prelude.{length-set}
use garmin_gpsmap_emu.Prelude.Bits.{bit_and-le_left}
use garmin_gpsmap_emu.Regfile.{I2cEvent}
use garmin_gpsmap_emu.Egalax.{
  Egalax, frame_size, queue_size, max_xy, copy_into, frame_of, update_irq, queue_frame, drop_frame,
  reply, command, grow, assemble, finish, event, send, recv, reset,
}
use garmin_gpsmap_emu.Egalax.Touch.{
  ℤ, pos, negsuc, x_axis, y_axis, Input, absolute, relative, button, other, queue_touch, clamp_move,
  input_event, release, repeat_cb, input_sync,
}

pub record IsValid (s : Egalax) : Type 0 where
  pub line : s.irq ≡ (s.q_count == 0)
  pub head_in : s.q_head < queue_size
  pub count_in : s.q_count ≤ queue_size
  pub rx_in : s.rx_len ≤ frame_size
  pub inner_in : s.inner_len ≤ 64
  pub queue_array : length s.queue ≡ queue_size
  pub rx_array : length s.rx ≡ frame_size
  pub inner_array : length s.inner ≡ 64
  pub x_in : s.x ≤ max_xy
  pub y_in : s.y ≤ max_xy

length-copy_into :
    (dst : List ℕ) (at : ℕ) (src : List ℕ) → length (copy_into dst at src) ≡ length dst
unfolding copy_into
length-copy_into dst at [] = refl
length-copy_into dst at (x ∷ xs) = length-copy_into (set dst at x) (at + 1) xs ∙ length-set dst at x

queue_frame-IsValid : (s : Egalax) (f : List ℕ) → IsValid s → IsValid (queue_frame s f)
unfolding queue_frame update_irq
queue_frame-IsValid s f v =
    ground (arith, length-set s.queue ((s.q_head + s.q_count) % queue_size) (frame_of f))

drop_frame-IsValid : (s : Egalax) → IsValid s → IsValid (drop_frame s)
unfolding drop_frame update_irq
drop_frame-IsValid s v = ground arith

command-IsValid : (s : Egalax) → IsValid s → IsValid (command s)
unfolding command reply
command-IsValid s v = grind (arith, queue_frame-IsValid)

grow-IsValid : (s : Egalax) → IsValid s → IsValid (grow s)
unfolding grow
grow-IsValid s v =
    ground
      (arith, length-copy_into s.inner s.inner_len (take (min (get_or s.rx 1 0) 8) (drop 2 s.rx)))

assemble-IsValid : (s : Egalax) → IsValid s → IsValid (assemble s)
unfolding assemble
assemble-IsValid s v = let w = grow-IsValid s v in ground (arith, command-IsValid (grow s) w)

finish-IsValid : (s : Egalax) → IsValid s → IsValid (finish s)
unfolding finish
finish-IsValid s v = ground (arith, assemble-IsValid s v, drop_frame-IsValid s v)

event-IsValid : (s : Egalax) (e : I2cEvent) → IsValid s → IsValid (event s e)
unfolding event
event-IsValid s I2cEvent.finish v = finish-IsValid s v
event-IsValid s I2cEvent.start_send v = ground arith
event-IsValid s I2cEvent.start_recv v = ground arith
event-IsValid s I2cEvent.nack v = v

send-IsValid : (s : Egalax) (byte : ℕ) → IsValid s → IsValid (send s byte)
unfolding send
send-IsValid s byte v = ground (arith, length-set s.rx s.rx_len byte)

recv-IsValid : (s : Egalax) → IsValid s → IsValid (recv s).1
unfolding recv
recv-IsValid s v =
    let t = record s { tx_pos = u8 (s.tx_pos + 1) } in
    let w : IsValid t = record {
      line = v.line;
      head_in = v.head_in;
      count_in = v.count_in;
      rx_in = v.rx_in;
      inner_in = v.inner_in;
      queue_array = v.queue_array;
      rx_array = v.rx_array;
      inner_array = v.inner_array;
      x_in = v.x_in;
      y_in = v.y_in;
    } in
    ground (arith, drop_frame-IsValid t w)

queue_touch-IsValid : (s : Egalax) (down : Bool) → IsValid s → IsValid (queue_touch s down)
unfolding queue_touch
queue_touch-IsValid s down v = queue_frame-IsValid s _ v

clamp_move-le : (at : ℕ) (v : ℤ) → clamp_move at v ≤ max_xy
unfolding clamp_move
clamp_move-le at (pos n) = omega arith
clamp_move-le at (negsuc n) = omega arith

module _ (scale_axis : ℤ → ℕ) (scale_range : (v : ℤ) → scale_axis v ≤ max_xy) where
  input_event-IsValid : (s : Egalax) (e : Input) → IsValid s → IsValid (input_event scale_axis s e)
  unfolding input_event
  input_event-IsValid s (absolute x_axis v) w =
      ground (arith, scale_range v, bit_and-le_left (scale_axis v) (not32 7))
  input_event-IsValid s (absolute y_axis v) w =
      ground (arith, scale_range v, bit_and-le_left (scale_axis v) (not32 7))
  input_event-IsValid s (relative x_axis v) w =
      ground (arith, clamp_move-le s.x v, bit_and-le_left (clamp_move s.x v) (not32 7))
  input_event-IsValid s (relative y_axis v) w =
      ground (arith, clamp_move-le s.y v, bit_and-le_left (clamp_move s.y v) (not32 7))
  input_event-IsValid s (button down) w = ground arith
  input_event-IsValid s other w = w

release-IsValid : (s : Egalax) → IsValid s → IsValid (release s)
unfolding release
release-IsValid s v =
    let t = record s { release_pending = false } in
    let w : IsValid t = ground arith in ground (arith, queue_touch-IsValid t false w)

repeat_cb-IsValid : (s : Egalax) (now : ℕ) → IsValid s → IsValid (repeat_cb s now)
unfolding repeat_cb
repeat_cb-IsValid s now v = ground (arith, release-IsValid s v, queue_touch-IsValid s true v)

input_sync-IsValid : (s : Egalax) (now : ℕ) → IsValid s → IsValid (input_sync s now)
unfolding input_sync
input_sync-IsValid s now v =
    let a = record s { last_sent_pressed = s.pressed } in
    let b = record a { release_pending = false; press_ns = now } in
    let wa : IsValid a = ground arith in
    let wb : IsValid b = ground arith in
    ground
      (arith, release-IsValid a wa, queue_touch-IsValid b true wb, queue_touch-IsValid s true v)

-- What happens to the controller: the I2C core's calls, QEMU's input calls, the repeat timer.
pub data Action : Type 0 where
  bus_event : I2cEvent → Action
  bus_send : ℕ → Action
  bus_recv : Action
  input : Input → Action
  sync : ℕ → Action
  expire : ℕ → Action
  restart : Action

module _ (scale_axis : ℤ → ℕ) where
  unfoldable pub step : Egalax → Action → Egalax
  step s (bus_event e) = event s e
  step s (bus_send byte) = send s byte
  step s bus_recv = (recv s).1
  step s (input e) = input_event scale_axis s e
  step s (sync now) = input_sync s now
  step s (expire now) = repeat_cb s now
  step s restart = reset s

  unfoldable pub run : Egalax → List Action → Egalax
  run s [] = s
  run s (a ∷ as_) = run (step s a) as_

  step-IsValid :
      (s : Egalax) (a : Action) → ((v : ℤ) → scale_axis v ≤ max_xy) → IsValid s → IsValid (step s a)
  unfolding step reset update_irq
  step-IsValid s (bus_event e) r v = event-IsValid s e v
  step-IsValid s (bus_send byte) r v = send-IsValid s byte v
  step-IsValid s bus_recv r v = recv-IsValid s v
  step-IsValid s (input e) r v = input_event-IsValid scale_axis r s e v
  step-IsValid s (sync now) r v = input_sync-IsValid s now v
  step-IsValid s (expire now) r v = repeat_cb-IsValid s now v
  step-IsValid s restart r v = ground arith

  -- If QEMU scales absolute positions into the range that it is given: whatever the I2C master
  -- sends and reads and the pointer does, in any order, every index of the receive buffer, of the
  -- command frame and of the ring stays in range, the position stays on the panel, and INT is low
  -- exactly while a frame waits.
  pub actions-IsValid :
      (s : Egalax) (actions : List Action)
      → ((v : ℤ) → scale_axis v ≤ max_xy)
      → IsValid s
      → IsValid (run s actions)
  unfolding run
  actions-IsValid s [] r v = v
  actions-IsValid s (a ∷ as_) r v = actions-IsValid (step s a) as_ r (step-IsValid s a r v)
