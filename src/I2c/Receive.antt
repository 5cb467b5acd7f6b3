-- ===== src/I2c/Receive.antt =====
-- A master receive transfer from the write of CON to the last byte that the guest reads.
use garmin_gpsmap_emu.Prelude.{ℕ, ◌^◌, ◌<◌, min}
use garmin_gpsmap_emu.Prelude.{bit_and, bit_or, u32, nonzero, has}
use garmin_gpsmap_emu.Prelude.{◌≡◌, refl, ap, ◌∙◌, arith}
use garmin_gpsmap_emu.Prelude.{true, false, if◌then◌else◌}
use garmin_gpsmap_emu.Prelude.{List}
use garmin_gpsmap_emu.Prelude.Bits.{bit, bit_le, bit-or}
use garmin_gpsmap_emu.Prelude.Bits.{bit-two_pow, has-flag}
use native.Mathlib.Nat.{zero-add}
use garmin_gpsmap_emu.I2c.{
  I2c, fifo_size, refresh, update_irq, done_cb, defer, recv_bytes, start_recv, start, stat_rrdy,
  stat_bb, con_trx, con_en, con_mst, con_stt,
}
use garmin_gpsmap_emu.I2c.Bus.{BusOps, received}
use garmin_gpsmap_emu.I2c.Valid.{IsValid, recv_bytes_fits}
use garmin_gpsmap_emu.I2c.Regs.{decode, write_con, write_reg, write}
use garmin_gpsmap_emu.I2c.Window.{
  window, read_bytes, bit-refresh, window-recv_bytes, read_bytes-window, read_bytes_finish,
  recv_bytes_keeps,
}

module _ {S : Type 0} (ops : BusOps S) where
  -- The completion of a receive that the guest has not read yet.
  done_cb_ready :
      (s : I2c S)
      → s.pend_finish ≡ false
      → bit s.pend_stat 3 ≡ 1
      → ((done_cb s).rx_active ≡ s.rx_active)
        × ((done_cb s).fifo ≡ s.fifo)
        × ((done_cb s).fifo_pos ≡ s.fifo_pos)
        × ((done_cb s).fifo_len ≡ s.fifo_len)
        × (has (done_cb s).stat stat_rrdy ≡ true)
  unfolding done_cb update_irq
  done_cb_ready s f h =
      let t = record s { stat = bit_or s.stat s.pend_stat; pend_stat = 0 } in
      rw f (
        unfold refresh in refl,
        unfold refresh in refl,
        unfold refresh in refl,
        unfold refresh in refl,
        ground (
          arith,
          bit-refresh ops t,
          bit-or s.stat s.pend_stat 3,
          bit_le s.stat 3,
          bit_le (refresh t).stat 3,
          has-flag 3 (refresh t).stat,
        ),
      )

  -- The controller has received `n` bytes of `b`, and their completion is deferred.
  record IsDelivered (n : ℕ) (b : S) (t : I2c S) : Type 0 where
    rx : t.rx_active ≡ true
    pos : t.fifo_pos ≡ 0
    len : t.fifo_len ≡ n
    bytes : window t.fifo 0 n ≡ received ops n b
    ready : bit t.pend_stat 3 ≡ 1
    idle : t.pend_finish ≡ false

  start_recv_lem :
      (s : I2c S) (now : ℕ)
      → IsValid s
      → s.pend_finish ≡ false
      → IsDelivered
          (min (if nonzero s.cnt then s.cnt else 1) fifo_size)
          s.bus
          (start_recv ops s now)
  unfolding start_recv defer
  start_recv_lem s now v f =
      let n : ℕ = min (if nonzero s.cnt then s.cnt else 1) fifo_size in
      let a = record s { rx_active = true; fifo_len = 0; fifo_pos = 0 } in
      let r = recv_bytes ops n a in
      let (array, len, pos) = recv_bytes_fits ops n a v.array (omega arith) in
      let (rx, fin) = recv_bytes_keeps ops n a in
      record {
        rx = rx;
        pos = pos;
        len = len ∙ zero-add n;
        bytes = window-recv_bytes ops n a (rw v.array (omega arith));
        ready =
            ground (arith, bit-or r.pend_stat stat_rrdy 3, bit-two_pow 3 3, bit_le r.pend_stat 3);
        idle = rw (fin, f) refl;
      }

  update_irq-IsDelivered :
      (n : ℕ) (b : S) (t : I2c S) → IsDelivered n b t → IsDelivered n b (update_irq t)
  unfolding update_irq refresh
  update_irq-IsDelivered n b t d = record {
    rx = d.rx;
    pos = d.pos;
    len = d.len;
    bytes = d.bytes;
    ready = d.ready;
    idle = d.idle;
  }

  delivered_read :
      (n : ℕ) (b : S) (t : I2c S) (later : ℕ)
      → 0 < n
      → IsDelivered n b t
      → (has (done_cb t).stat stat_rrdy ≡ true)
        × ((read_bytes ops n (done_cb t) later).0 ≡ received ops n b)
        × ((read_bytes ops n (done_cb t) later).1.pend_finish ≡ true)
  delivered_read n b t later h d =
      let (rx, fifo, pos, len, flag) = done_cb_ready t d.idle d.ready in
      let p : (done_cb t).fifo_pos ≡ 0 = pos ∙ d.pos in
      let l : (done_cb t).fifo_len ≡ n = len ∙ d.len in
      (
        flag,
        read_bytes-window ops n (done_cb t) later (rx ∙ d.rx) (omega arith)
            ∙ ap (λ (i : ℕ). window (done_cb t).fifo i n) p
            ∙ ap (λ (f : List ℕ). window f 0 n) fifo
            ∙ d.bytes,
        read_bytes_finish ops n (done_cb t) later (rx ∙ d.rx) h (omega arith),
      )

  write_starts_recv :
      (s : I2c S) (val now : ℕ)
      → val < 2 ^ 32
      → has val con_en ≡ true
      → has val con_stt ≡ true
      → has val con_mst ≡ true
      → has val con_trx ≡ false
      → s.tx_active ≡ false
      → s.rx_active ≡ false
      → (ops.start_transfer s.bus (bit_and s.sa 0x7f) true).1 ≡ false
      → write ops s 0xa4 val now
        ≡ update_irq (
            start_recv ops
              (record s {
                con = u32 val;
                bus = (ops.start_transfer s.bus (bit_and s.sa 0x7f) true).0;
                stat = bit_or s.stat stat_bb;
              })
              now)
  unfolding write write_reg decode write_con start
  write_starts_recv s val now small en stt mst trx tx rx ack =
      let same : u32 val ≡ val = omega arith in
      let recv : has (u32 val) con_trx ≡ false = rw same trx in
      rw (en, stt, mst, tx, rx, recv, ack) refl

  -- A guest write of CON with EN, STT and MST and without TRX, at an idle controller whose slave
  -- answers, and the completion callback: RRDY is set, and the guest then reads from DATA, in
  -- order, exactly the bytes that the slave delivers, CNT of them (one for CNT = 0, and at most the
  -- 64 of the FIFO); after the last the transfer is finished.
  pub receive :
      (s : I2c S) (val now later : ℕ)
      → IsValid s
      → val < 2 ^ 32
      → has val con_en ≡ true
      → has val con_stt ≡ true
      → has val con_mst ≡ true
      → has val con_trx ≡ false
      → s.tx_active ≡ false
      → s.rx_active ≡ false
      → s.pend_finish ≡ false
      → (ops.start_transfer s.bus (bit_and s.sa 0x7f) true).1 ≡ false
      → let n = min (if nonzero s.cnt then s.cnt else 1) fifo_size in
        let t = done_cb (write ops s 0xa4 val now) in
        (has t.stat stat_rrdy ≡ true)
        × ((read_bytes ops n t later).0
            ≡ received ops n (ops.start_transfer s.bus (bit_and s.sa 0x7f) true).0)
        × ((read_bytes ops n t later).1.pend_finish ≡ true)
  receive s val now later v small en stt mst trx tx rx fin ack =
      let n : ℕ = min (if nonzero s.cnt then s.cnt else 1) fifo_size in
      let b = (ops.start_transfer s.bus (bit_and s.sa 0x7f) true).0 in
      let a = record s { con = u32 val; bus = b; stat = bit_or s.stat stat_bb } in
      let w : IsValid a = record { array = v.array; len_in = v.len_in; pos_in = v.pos_in } in
      let d = update_irq-IsDelivered n b (start_recv ops a now) (start_recv_lem a now w fin) in
      rw (write_starts_recv s val now small en stt mst trx tx rx ack)
        (delivered_read n b (update_irq (start_recv ops a now)) later (ground arith) d)
