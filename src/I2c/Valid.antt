-- ===== src/I2c/Valid.antt =====
-- The FIFO indices of the I2C controller of qemu/hw/arm/garmin_gpsmap.c, whatever the guest and
-- the slaves do.
use garmin_gpsmap_emu.Prelude.{ℕ, zero, suc, ◌+◌, ◌-◌, ◌≤◌, min}
use garmin_gpsmap_emu.Prelude.{bit_and, bit_or, u8, u32, nonzero, has}
use garmin_gpsmap_emu.Prelude.{◌≡◌, refl, ap, ◌∙◌, arith}
use garmin_gpsmap_emu.Prelude.{true, not, if◌then◌else◌}
use garmin_gpsmap_emu.Prelude.{List, [], ◌∷◌}
use garmin_gpsmap_emu.Prelude.{length, get_or, set}
use garmin_gpsmap_emu.Prelude.{length-set}
use garmin_gpsmap_emu.I2c.{
  I2c, fifo_size, con_trx, stat_bb, refresh, update_irq, complete, done_cb, defer, finish, tx_byte,
  recv_bytes, send_queued, start_recv, start_send, start,
}
use garmin_gpsmap_emu.I2c.Bus.{BusOps}
use garmin_gpsmap_emu.I2c.Regs.{
  Reg, decode, read_data, read_reg, read, write_data, write_con, write_reg, write,
}

-- `fifo[fifo_pos]` is read and `fifo[fifo_len]` is written inside the array of 64 bytes.
pub record IsValid {S : Type 0} (s : I2c S) : Type 0 where
  pub array : length s.fifo ≡ fifo_size
  pub len_in : s.fifo_len ≤ fifo_size
  pub pos_in : s.fifo_pos ≤ s.fifo_len

pub data Event : Type 0 where
  -- a guest read of an address, and a guest write of a value, with the clock value
  load : ℕ → ℕ → Event
  store : ℕ → ℕ → ℕ → Event
  -- the deferred completion
  expire : Event

module _ {S : Type 0} where
  refresh-IsValid : (s : I2c S) → IsValid s → IsValid (refresh s)
  unfolding refresh
  refresh-IsValid s v = record { array = v.array; len_in = v.len_in; pos_in = v.pos_in }

  update_irq-IsValid : (s : I2c S) → IsValid s → IsValid (update_irq s)
  unfolding update_irq refresh
  update_irq-IsValid s v = record { array = v.array; len_in = v.len_in; pos_in = v.pos_in }

  done_cb-IsValid : (s : I2c S) → IsValid s → IsValid (done_cb s)
  unfolding done_cb complete update_irq refresh
  done_cb-IsValid s v = ground arith

module _ {S : Type 0} (ops : BusOps S) where
  tx_byte_keeps :
      (s : I2c S) (byte now : ℕ)
      → ((tx_byte ops s byte now).fifo ≡ s.fifo)
        × ((tx_byte ops s byte now).fifo_len ≡ s.fifo_len)
        × ((tx_byte ops s byte now).fifo_pos ≡ s.fifo_pos)
        × ((tx_byte ops s byte now).tx_active ≡ s.tx_active)
  unfolding tx_byte finish defer
  tx_byte_keeps s byte now = ground arith

  -- The receive loop stays inside the array if what it adds does.
  pub recv_bytes_fits :
      (n : ℕ) (s : I2c S)
      → length s.fifo ≡ fifo_size
      → s.fifo_len + n ≤ fifo_size
      → (length (recv_bytes ops n s).fifo ≡ fifo_size)
        × ((recv_bytes ops n s).fifo_len ≡ s.fifo_len + n)
        × ((recv_bytes ops n s).fifo_pos ≡ s.fifo_pos)
  unfolding recv_bytes
  recv_bytes_fits zero s a h = (a, omega arith, refl)
  recv_bytes_fits (suc n) s a h =
      let (v, b) = ops.recv s.bus in
      let t = record s { bus = b; fifo = set s.fifo s.fifo_len v; fifo_len = s.fifo_len + 1 } in
      let r = recv_bytes_fits n t (length-set s.fifo s.fifo_len v ∙ a) (omega arith) in
      (r.0, omega (arith, r.1), r.2)

  send_queued_keeps :
      (n : ℕ) (s : I2c S) (now : ℕ)
      → s.fifo_pos ≤ s.fifo_len
      → ((send_queued ops n s now).fifo ≡ s.fifo)
        × ((send_queued ops n s now).fifo_len ≡ s.fifo_len)
        × ((send_queued ops n s now).fifo_pos ≤ s.fifo_len)
  unfolding send_queued
  send_queued_keeps zero s now h = (refl, refl, h)
  send_queued_keeps (suc n) s now h =
      let byte = get_or s.fifo s.fifo_pos 0 in
      let a = record s { fifo_pos = s.fifo_pos + 1 } in
      ground (arith, send_queued_keeps n (tx_byte ops a byte now) now, tx_byte_keeps a byte now)

  start_recv-IsValid : (s : I2c S) (now : ℕ) → IsValid s → IsValid (start_recv ops s now)
  unfolding start_recv defer
  start_recv-IsValid s now v =
      let n = min (if nonzero s.cnt then s.cnt else 1) fifo_size in
      let r =
        recv_bytes_fits n (record s { rx_active = true; fifo_len = 0; fifo_pos = 0 }) v.array
          (omega arith) in
      record { array = r.0; len_in = rw (r.1) (omega arith); pos_in = rw (r.2) (omega arith) }

  start_send-IsValid : (s : I2c S) (now : ℕ) → IsValid s → IsValid (start_send ops s now)
  unfolding start_send finish defer
  start_send-IsValid s now v =
      let k =
        send_queued_keeps (s.fifo_len - s.fifo_pos)
          (record s { tx_active = true; tx_remaining = s.cnt }) now v.pos_in in
      ground (arith, ap (λ (f : List ℕ). length f) k.0)

  start-IsValid : (s : I2c S) (now : ℕ) → IsValid s → IsValid (start ops s now)
  unfolding start defer
  start-IsValid s now v =
      let recv = not (has s.con con_trx) in
      let (b, nack) = ops.start_transfer s.bus (bit_and s.sa 0x7f) recv in
      let t = record s { bus = b; stat = bit_or s.stat stat_bb } in
      let w : IsValid t = record { array = v.array; len_in = v.len_in; pos_in = v.pos_in } in
      ground (arith, start_recv-IsValid t now w, start_send-IsValid t now w)

  write_data-IsValid : (s : I2c S) (val now : ℕ) → IsValid s → IsValid (write_data ops s val now)
  unfolding write_data
  write_data-IsValid s val now v =
      let k = tx_byte_keeps s (u8 val) now in
      ground (arith, length-set s.fifo s.fifo_len (u8 val), ap (λ (f : List ℕ). length f) k.0)

  write_con-IsValid : (s : I2c S) (val now : ℕ) → IsValid s → IsValid (write_con ops s val now)
  unfolding write_con
  write_con-IsValid s val now v =
      let t = record s { con = u32 val } in
      let w : IsValid t = record { array = v.array; len_in = v.len_in; pos_in = v.pos_in } in
      ground (arith, start-IsValid t now w)

  write_reg-IsValid :
      (s : I2c S) (r : Reg) (val now : ℕ) → IsValid s → IsValid (write_reg ops s r val now)
  unfolding write_reg
  write_reg-IsValid s Reg.fifo_data val now v = write_data-IsValid s val now v
  write_reg-IsValid s Reg.con val now v = write_con-IsValid s val now v
  write_reg-IsValid s _ val now v = ground arith

  read_reg-IsValid : (s : I2c S) (r : Reg) (now : ℕ) → IsValid s → IsValid (read_reg ops s r now).1
  unfolding read_reg read_data finish defer
  read_reg-IsValid s Reg.fifo_data now v = ground arith
  read_reg-IsValid s _ now v = v

  unfoldable pub step : I2c S → Event → I2c S
  step s (load addr now) = (read ops s addr now).1
  step s (store addr val now) = write ops s addr val now
  step s expire = done_cb s

  step-IsValid : (s : I2c S) (e : Event) → IsValid s → IsValid (step s e)
  unfolding step read write
  step-IsValid s (load addr now) v =
      read_reg-IsValid (refresh s) (decode addr) now (refresh-IsValid s v)
  step-IsValid s (store addr val now) v =
      update_irq-IsValid (write_reg ops s (decode addr) val now)
        (write_reg-IsValid s (decode addr) val now v)
  step-IsValid s expire v = done_cb-IsValid s v

  unfoldable pub run : I2c S → List Event → I2c S
  run s [] = s
  run s (e ∷ es) = run (step s e) es

  -- Whatever the guest reads and writes, whatever the slaves answer and whenever the completion
  -- comes: the next byte to read and the next byte to write lie inside the FIFO of 64 bytes, or
  -- the handlers' guards (`fifo_pos < fifo_len`, `fifo_len < 64`) turn the access away.
  pub run-IsValid : (s : I2c S) (es : List Event) → IsValid s → IsValid (run s es)
  unfolding run
  run-IsValid s [] v = v
  run-IsValid s (e ∷ es) v = run-IsValid (step s e) es (step-IsValid s e v)
