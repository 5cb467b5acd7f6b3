-- ===== src/Egalax/Tests.antt =====
-- The controller after reset, a touch and a version command, and the theorems at them.
use garmin_gpsmap_emu.Prelude.{ℕ, ◌*◌, ◌/◌, ◌%◌, ◌≤◌}
use garmin_gpsmap_emu.Prelude.{◌≡◌, refl, arith}
use garmin_gpsmap_emu.Prelude.{true, false, if◌then◌else◌, ◌==◌}
use garmin_gpsmap_emu.Prelude.{none, List, [], ◌∷◌, ◌++◌}
use garmin_gpsmap_emu.Prelude.{get_or, set, replicate}
use garmin_gpsmap_emu.Regfile.{I2cEvent}
use garmin_gpsmap_emu.Egalax.{
  Egalax, frame_size, queue_size, frame_of, copy_into, update_irq, queue_frame, drop_frame, reply,
  command, grow, assemble, finish, event, send, recv, max_xy,
}
use garmin_gpsmap_emu.Egalax.Touch.{
  ℤ, pos, negsuc, absolute, button, x_axis, input_event, queue_touch, input_sync,
}
use garmin_gpsmap_emu.Egalax.Valid
use garmin_gpsmap_emu.Egalax.Valid.{IsValid, actions-IsValid}
use garmin_gpsmap_emu.Egalax.Queue.{contents, bytes, recv_all, contents-queue_frame, recv_frame}
use garmin_gpsmap_emu.Egalax.Stall.{IsStalled, chunks, chunks-IsStalled}
use garmin_gpsmap_emu.Egalax.Hold
use garmin_gpsmap_emu.Egalax.Hold.{IsArmed, run-IsArmed}

abbrev idle : Egalax
idle = record {
  irq = true;
  rx = replicate 10 0;
  rx_len = 0;
  inner = replicate 64 0;
  inner_len = 0;
  queue = replicate 32 (replicate 10 0);
  q_head = 0;
  q_count = 0;
  tx_pos = 0;
  x = 0x3ffc;
  y = 0x3ffc;
  pressed = false;
  last_sent_pressed = false;
  moved = false;
  repeat = none;
  press_ns = 0;
  release_pending = false;
}

-- Absolute positions from 0 to 0x7fff.
abbrev scale : ℤ → ℕ
scale (pos n) = n * max_xy / 0x7fff % 0x7ff9
scale (negsuc n) = 0

scale_range : (v : ℤ) → scale v ≤ max_xy
scale_range (pos n) = omega arith
scale_range (negsuc n) = omega arith

abbrev touch : List Valid.Action
touch =
    Valid.input (absolute x_axis (pos 0))
    ∷ Valid.input (button true)
    ∷ Valid.sync 1000
    ∷ Valid.bus_event I2cEvent.start_recv
    ∷ Valid.bus_recv
    ∷ []

touch_report :
    ((recv_all 4 (event (Valid.run scale idle touch) I2cEvent.start_recv)).0
      ≡ 0x04 ∷ 0x81 ∷ 0xf8 ∷ 0x7f ∷ [])
    × ((Valid.run scale idle touch).irq ≡ false)
unfolding Valid.run Valid.step input_event input_sync queue_touch queue_frame frame_of copy_into
    update_irq event recv drop_frame recv_all
touch_report = (refl, refl)

-- 03 03 03 01 'A' (version) is answered by 03 03 03 01 'A'.
abbrev version : List Valid.Action
version =
    Valid.bus_event I2cEvent.start_send
    ∷ Valid.bus_send 3
    ∷ Valid.bus_send 3
    ∷ Valid.bus_send 3
    ∷ Valid.bus_send 1
    ∷ Valid.bus_send b'A'
    ∷ Valid.bus_event I2cEvent.finish
    ∷ []

version_reply :
    contents (Valid.run scale idle version) ≡ (3 ∷ 3 ∷ 3 ∷ 1 ∷ b'A' ∷ 0 ∷ 0 ∷ 0 ∷ 0 ∷ 0 ∷ []) ∷ []
unfolding Valid.run Valid.step event send finish assemble grow command reply queue_frame frame_of
    copy_into update_irq
version_reply = refl

idle-IsValid : IsValid idle
idle-IsValid = record {
  line = refl;
  head_in = omega arith;
  count_in = omega arith;
  rx_in = omega arith;
  inner_in = omega arith;
  queue_array = refl;
  rx_array = refl;
  inner_array = refl;
  x_in = omega arith;
  y_in = omega arith;
}

idle-IsArmed : IsArmed idle
idle-IsArmed = record { synced = refl; down = λ h. cc; apart = λ h. refl; pending = λ h. cc }

actions-IsValid_example : IsValid (Valid.run scale idle version)
actions-IsValid_example = actions-IsValid scale idle version scale_range idle-IsValid

contents-queue_frame_example : contents (queue_frame idle (4 ∷ 0x81 ∷ [])) ≡ (
    if idle.q_count == queue_size
    then contents idle
    else contents idle ++ (frame_of (4 ∷ 0x81 ∷ []) ∷ []))
contents-queue_frame_example = contents-queue_frame idle (4 ∷ 0x81 ∷ []) idle-IsValid

abbrev waiting : Egalax
waiting = record idle {
  queue = set idle.queue 0 (4 ∷ 0x81 ∷ 0 ∷ 1 ∷ 2 ∷ 3 ∷ 4 ∷ 5 ∷ 0 ∷ 0 ∷ []);
  q_count = 1;
  irq = false;
}

recv_frame_example :
    let r = recv_all frame_size (event waiting I2cEvent.start_recv) in
    (r.0 ≡ bytes (get_or waiting.queue waiting.q_head []) 0 frame_size)
    × (contents waiting ≡ get_or waiting.queue waiting.q_head [] ∷ contents r.1)
recv_frame_example = recv_frame waiting (omega arith)

-- 03 ff has been assembled.
abbrev begun : Egalax
begun = record idle { inner = set (set idle.inner 0 3) 1 0xff; inner_len = 2 }

begun-IsStalled : IsStalled begun
begun-IsStalled = record {
  size = refl;
  begun = omega arith;
  room = omega arith;
  announced = omega arith;
}

chunks-IsStalled_example :
    IsStalled (chunks begun ((3 ∷ 8 ∷ 1 ∷ 2 ∷ [], 4) ∷ []))
    × ((chunks begun ((3 ∷ 8 ∷ 1 ∷ 2 ∷ [], 4) ∷ [])).queue ≡ begun.queue)
    × ((chunks begun ((3 ∷ 8 ∷ 1 ∷ 2 ∷ [], 4) ∷ [])).q_count ≡ 0)
chunks-IsStalled_example =
    chunks-IsStalled begun ((3 ∷ 8 ∷ 1 ∷ 2 ∷ [], 4) ∷ []) begun-IsStalled (omega arith, refl, tt)

abbrev tap : List Hold.Action
tap =
    Hold.gesture (button true ∷ []) 1000
    ∷ Hold.gesture (button false ∷ []) 2000
    ∷ Hold.expire 10001000
    ∷ []

run-IsArmed_example : IsArmed (Hold.run scale idle tap)
run-IsArmed_example = run-IsArmed scale idle tap idle-IsArmed
