-- ===== src/Egalax.antt =====
-- The EETI eGalax touch controller of qemu/hw/arm/garmin_gpsmap.c (`struct GarminEgalax`): wire
-- frames of 10 bytes, a ring of 32 frames towards the host, and the command frames from it.
-- `irq` is the level last given to `qemu_set_irq` (high = idle); `repeat` is the deadline last
-- given to `timer_mod`, none after `timer_del`.
pub mod Touch
pub mod Valid
pub mod Queue
pub mod Stall
pub mod Hold
mod Tests
use garmin_gpsmap_emu.Prelude.{ℕ, ◌+◌, ◌-◌, ◌%◌, min}
use garmin_gpsmap_emu.Prelude.{u8, nonzero}
use garmin_gpsmap_emu.Prelude.{Bool, false, ◌&&◌, ◌||◌, if◌then◌else◌, ◌==◌, ltb, leb}
use garmin_gpsmap_emu.Prelude.{Option, none, List, [], ◌∷◌}
use garmin_gpsmap_emu.Prelude.{get_or, set, take, drop, replicate}
use garmin_gpsmap_emu.Regfile.{I2cEvent}

abbrev pub frame_size : ℕ
frame_size = 10

abbrev pub queue_size : ℕ
queue_size = 32

abbrev pub max_xy : ℕ
max_xy = 0x7ff8

pub record Egalax : Type 0 where
  pub irq : Bool
  pub rx : List ℕ
  pub rx_len : ℕ
  pub inner : List ℕ
  pub inner_len : ℕ
  pub queue : List (List ℕ)
  pub q_head : ℕ
  pub q_count : ℕ
  pub tx_pos : ℕ
  pub x : ℕ
  pub y : ℕ
  pub pressed : Bool
  pub last_sent_pressed : Bool
  pub moved : Bool
  pub repeat : Option ℕ
  pub press_ns : ℕ
  pub release_pending : Bool

-- `memcpy(dst + at, src, length src)`.
unfoldable pub copy_into : List ℕ → ℕ → List ℕ → List ℕ
copy_into dst at [] = dst
copy_into dst at (x ∷ xs) = copy_into (set dst at x) (at + 1) xs

-- A frame buffer that is zero but for the bytes copied to its start.
unfoldable pub frame_of : List ℕ → List ℕ
frame_of bytes = copy_into (replicate frame_size 0) 0 (take frame_size bytes)

unfoldable pub update_irq : Egalax → Egalax
update_irq s = record s { irq = s.q_count == 0 }

unfoldable pub queue_frame : Egalax → List ℕ → Egalax
queue_frame s f =
    if s.q_count == queue_size
    then s
    else update_irq (record s {
      queue = set s.queue ((s.q_head + s.q_count) % queue_size) (frame_of f);
      q_count = s.q_count + 1;
    })

-- The head frame leaves the queue.
unfoldable pub drop_frame : Egalax → Egalax
drop_frame s =
    update_irq (record s { q_head = (s.q_head + 1) % queue_size; q_count = s.q_count - 1 })

-- The first `n` bytes of `payload` behind the outer header 03 n; 8 bytes of payload at most.
unfoldable pub reply : Egalax → List ℕ → ℕ → Egalax
reply s payload n = queue_frame s (0x03 ∷ u8 n ∷ take (min n 8) payload)

unfoldable pub command : Egalax → Egalax
command s =
    let n = get_or s.inner 1 0 in
    let c0 = get_or s.inner 2 0 in
    let c1 = get_or s.inner 3 0 in
    let ilen = min (n + 2) 8 in
    let inner = frame_of (take ilen s.inner) in
    let answer = if leb 2 n && c0 == 0x3a && c1 == 0xfe then set inner 4 0 else inner in
    let t = reply s answer ilen in
    if leb 1 n && (c0 == 0x44 || c0 == 0x45) then reply t answer ilen else t

-- The payload of an outer chunk 03 len ... goes to the end of the inner frame, if it fits.
unfoldable pub grow : Egalax → Egalax
grow s =
    let n = min (get_or s.rx 1 0) 8 in
    if leb (s.inner_len + n) 64
    then record s {
      inner = copy_into s.inner s.inner_len (take n (drop 2 s.rx));
      inner_len = s.inner_len + n;
    }
    else s

-- The end of an outer chunk: the inner frame grows, and runs when it is complete.
unfoldable pub assemble : Egalax → Egalax
assemble s =
    let t = grow s in
    if leb 2 t.inner_len && leb (get_or t.inner 1 0 + 2) t.inner_len
    then record (command t) { inner_len = 0 }
    else t

unfoldable pub finish : Egalax → Egalax
finish s =
    let t =
      if nonzero s.rx_len
      then (let a = if get_or s.rx 0 0 == 0x03 then assemble s else record s { inner_len = 0 } in
          record a { rx_len = 0 })
      else if nonzero s.tx_pos && ltb s.tx_pos frame_size && nonzero s.q_count
      then drop_frame s
      else s in
    record t { tx_pos = 0 }

unfoldable pub event : Egalax → I2cEvent → Egalax
event s I2cEvent.start_send = record s { rx_len = 0 }
event s I2cEvent.start_recv = record s { tx_pos = 0 }
event s I2cEvent.finish = finish s
event s I2cEvent.nack = s

unfoldable pub send : Egalax → ℕ → Egalax
send s byte =
    if ltb s.rx_len frame_size
    then record s { rx = set s.rx s.rx_len byte; rx_len = s.rx_len + 1 }
    else s

unfoldable pub recv : Egalax → ℕ × Egalax
recv s =
    let v =
      if nonzero s.q_count && ltb s.tx_pos frame_size
      then get_or (get_or s.queue s.q_head []) s.tx_pos 0
      else 0 in
    let t = record s { tx_pos = u8 (s.tx_pos + 1) } in
    (v, if t.tx_pos == frame_size && nonzero t.q_count then drop_frame t else t)

unfoldable pub reset : Egalax → Egalax
reset s = update_irq (record s {
  rx_len = 0;
  inner_len = 0;
  q_head = 0;
  q_count = 0;
  tx_pos = 0;
  pressed = false;
  last_sent_pressed = false;
  moved = false;
  release_pending = false;
  repeat = none;
})
