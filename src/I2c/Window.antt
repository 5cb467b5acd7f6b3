-- ===== src/I2c/Window.antt =====
-- The receive FIFO of the I2C controller of qemu/hw/arm/garmin_gpsmap.c as a window of bytes.
use garmin_gpsmap_emu.Prelude.{ℕ, zero, suc, ◌+◌, ◌≤◌, ◌<◌}
use garmin_gpsmap_emu.Prelude.{bit_or}
use garmin_gpsmap_emu.Prelude.{◌≡◌, refl, ◌∙◌, arith}
use garmin_gpsmap_emu.Prelude.{true}
use garmin_gpsmap_emu.Prelude.{List, [], ◌∷◌}
use garmin_gpsmap_emu.Prelude.{length, get_or, set}
use garmin_gpsmap_emu.Prelude.{length-set, get_or-set_self, get_or-set_ne}
use garmin_gpsmap_emu.Prelude.Bits.{bit, bit_le, bit-or}
use garmin_gpsmap_emu.I2c.{I2c, refresh, defer, finish, recv_bytes, stat_rrdy, stat_xrdy}
use garmin_gpsmap_emu.I2c.Bus.{BusOps, received}
use garmin_gpsmap_emu.I2c.Regs.{decode, read_data, read_reg, read}

-- The `n` bytes from index `i` on.
abbrev pub window : List ℕ → ℕ → ℕ → List ℕ
window f i zero = []
window f i (suc n) = get_or f i 0 ∷ window f (i + 1) n

module _ {S : Type 0} (ops : BusOps S) where
  pub bit-refresh : (s : I2c S) → bit s.stat 3 ≤ bit (refresh s).stat 3
  unfolding refresh
  bit-refresh s = ground (
    arith,
    bit-or s.stat stat_xrdy 3,
    bit-or s.stat stat_rrdy 3,
    bit-or (bit_or s.stat stat_xrdy) stat_rrdy 3,
    bit_le s.stat 3,
  )

  recv_bytes_below :
      (n : ℕ) (s : I2c S) (i : ℕ)
      → i < s.fifo_len
      → get_or (recv_bytes ops n s).fifo i 0 ≡ get_or s.fifo i 0
  unfolding recv_bytes
  recv_bytes_below zero s i h = refl
  recv_bytes_below (suc n) s i h =
      let (v, b) = ops.recv s.bus in
      let t = record s { bus = b; fifo = set s.fifo s.fifo_len v; fifo_len = s.fifo_len + 1 } in
      recv_bytes_below n t i (omega arith) ∙ get_or-set_ne s.fifo s.fifo_len i v 0 (omega arith)

  -- The receive loop leaves in the FIFO what the slave delivers, in order.
  pub window-recv_bytes :
      (n : ℕ) (s : I2c S)
      → s.fifo_len + n ≤ length s.fifo
      → window (recv_bytes ops n s).fifo s.fifo_len n ≡ received ops n s.bus
  unfolding recv_bytes received
  window-recv_bytes zero s h = refl
  window-recv_bytes (suc n) s h =
      let (v, b) = ops.recv s.bus in
      let t = record s { bus = b; fifo = set s.fifo s.fifo_len v; fifo_len = s.fifo_len + 1 } in
      let head : get_or (recv_bytes ops n t).fifo s.fifo_len 0 ≡ v =
        recv_bytes_below n t s.fifo_len (omega arith)
        ∙ get_or-set_self s.fifo s.fifo_len v 0 (omega arith) in
      rw (head, window-recv_bytes n t (omega (arith, length-set s.fifo s.fifo_len v))) refl

  -- The guest reads DATA `n` times.
  unfoldable pub read_bytes : ℕ → I2c S → ℕ → List ℕ × I2c S
  read_bytes zero s now = ([], s)
  read_bytes (suc n) s now =
      let (v, t) = read ops s 0x9c now in let (vs, u) = read_bytes n t now in (v ∷ vs, u)

  read_data_lem :
      (s : I2c S) (now : ℕ)
      → s.rx_active ≡ true
      → s.fifo_pos < s.fifo_len
      → let (v, t) = read ops s 0x9c now in
        (v ≡ get_or s.fifo s.fifo_pos 0)
        × (t.fifo ≡ s.fifo)
        × (t.fifo_len ≡ s.fifo_len)
        × (t.fifo_pos ≡ s.fifo_pos + 1)
        × (t.rx_active ≡ true)
        × (s.fifo_pos + 1 ≡ s.fifo_len → t.pend_finish ≡ true)
  unfolding read read_reg decode read_data refresh finish defer
  read_data_lem s now a h = ground arith

  pub read_bytes-window :
      (n : ℕ) (s : I2c S) (now : ℕ)
      → s.rx_active ≡ true
      → s.fifo_pos + n ≤ s.fifo_len
      → (read_bytes n s now).0 ≡ window s.fifo s.fifo_pos n
  unfolding read_bytes
  read_bytes-window zero s now a h = refl
  read_bytes-window (suc n) s now a h =
      let (v, f, l, p, r, _) = read_data_lem s now a (omega arith) in
      let t = (read ops s 0x9c now).1 in ground (arith, read_bytes-window n t now)

  pub read_bytes_finish :
      (n : ℕ) (s : I2c S) (now : ℕ)
      → s.rx_active ≡ true
      → 0 < n
      → s.fifo_pos + n ≡ s.fifo_len
      → (read_bytes n s now).1.pend_finish ≡ true
  unfolding read_bytes
  read_bytes_finish zero s now a p h = absurd (omega arith)
  read_bytes_finish (suc zero) s now a p h = (read_data_lem s now a (omega arith)).5 (omega arith)
  read_bytes_finish (suc (suc n)) s now a p h =
      let (v, f, l, q, r, _) = read_data_lem s now a (omega arith) in
      read_bytes_finish (suc n) (read ops s 0x9c now).1 now r (omega arith) (omega arith)

  pub recv_bytes_keeps :
      (n : ℕ) (s : I2c S)
      → ((recv_bytes ops n s).rx_active ≡ s.rx_active)
        × ((recv_bytes ops n s).pend_finish ≡ s.pend_finish)
  unfolding recv_bytes
  recv_bytes_keeps zero s = (refl, refl)
  recv_bytes_keeps (suc n) s =
      let (v, b) = ops.recv s.bus in
      recv_bytes_keeps n
        (record s { bus = b; fifo = set s.fifo s.fifo_len v; fifo_len = s.fifo_len + 1 })
