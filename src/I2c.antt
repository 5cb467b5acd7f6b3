-- ===== src/I2c.antt =====
-- The OMAP4 I2C controller of qemu/hw/arm/garmin_gpsmap.c (`struct Omap4I2C`): polled master
-- transfers over a bus that QEMU provides, with deferred completion.
-- `irq` is the level last given to `qemu_set_irq`; `done_timer` is the deadline last given to
-- `timer_mod`, none after `timer_del`. A handler takes the clock value that it reads.
pub mod Bus
pub mod Regs
pub mod Valid
pub mod Window
pub mod Receive
pub mod Done
mod Tests
use garmin_gpsmap_emu.Prelude.{ℕ, zero, suc, ◌+◌, ◌-◌, ◌*◌, ◌^◌, min}
use garmin_gpsmap_emu.Prelude.{bit_and, bit_or, not32, nonzero, has}
use garmin_gpsmap_emu.Prelude.{Bool, true, false, not, ◌&&◌, ◌||◌, if◌then◌else◌, ◌==◌, ltb}
use garmin_gpsmap_emu.Prelude.{Option, none, some, List}
use garmin_gpsmap_emu.Prelude.{get_or, set}
use Bus.{BusOps}

abbrev pub fifo_size : ℕ
fifo_size = 64

abbrev pub byte_ns : ℕ
byte_ns = 100000

abbrev pub stat_nack : ℕ
stat_nack = 2 ^ 1

abbrev pub stat_ardy : ℕ
stat_ardy = 2 ^ 2

abbrev pub stat_rrdy : ℕ
stat_rrdy = 2 ^ 3

abbrev pub stat_xrdy : ℕ
stat_xrdy = 2 ^ 4

-- bus free
abbrev pub stat_bf : ℕ
stat_bf = 2 ^ 8

abbrev pub stat_bb : ℕ
stat_bb = 2 ^ 12

abbrev pub stat_rdr : ℕ
stat_rdr = 2 ^ 13

abbrev pub stat_xdr : ℕ
stat_xdr = 2 ^ 14

abbrev pub con_stt : ℕ
con_stt = 2 ^ 0

abbrev pub con_stp : ℕ
con_stp = 2 ^ 1

abbrev pub con_trx : ℕ
con_trx = 2 ^ 9

abbrev pub con_mst : ℕ
con_mst = 2 ^ 10

abbrev pub con_en : ℕ
con_en = 2 ^ 15

pub record I2c (S : Type 0) : Type 0 where
  pub bus : S
  pub irq : Bool
  pub sysc : ℕ
  pub ie : ℕ
  pub stat : ℕ
  pub we : ℕ
  pub buf : ℕ
  pub cnt : ℕ
  pub con : ℕ
  pub oa : ℕ
  pub sa : ℕ
  pub psc : ℕ
  pub scll : ℕ
  pub sclh : ℕ
  pub systest : ℕ
  pub fifo : List ℕ
  pub fifo_len : ℕ
  pub fifo_pos : ℕ
  pub tx_remaining : ℕ
  pub tx_active : Bool
  pub rx_active : Bool
  pub done_timer : Option ℕ
  pub pend_stat : ℕ
  pub pend_finish : Bool
  pub irq_level : Bool

module _ {S : Type 0} where
  -- Level-type status bits re-assert while their condition holds.
  unfoldable pub refresh : I2c S → I2c S
  refresh s =
      let x =
        if s.tx_active && ltb 0 s.tx_remaining && not s.pend_finish
        then bit_or s.stat stat_xrdy
        else s.stat in
      let r =
        if s.rx_active
          && ltb s.fifo_pos s.fifo_len
          && not s.pend_finish
          && not (has s.pend_stat stat_rrdy)
        then bit_or x stat_rrdy
        else x in
      record s { stat = r }

  unfoldable pub update_irq : I2c S → I2c S
  update_irq s =
      let t = refresh s in
      let level = has t.stat t.ie in record t { irq_level = level; irq = level }

  -- The completion of a transfer by the deferred callback.
  unfoldable pub complete : I2c S → I2c S
  complete s =
      let st = bit_and s.stat (not32 (stat_xrdy + stat_bb + stat_xdr + stat_rdr)) in
      record s {
        tx_active = false;
        rx_active = false;
        stat = if has s.con con_stp then bit_or st stat_bf else st;
        con = bit_and s.con (not32 (con_stt + con_stp));
        pend_finish = false;
      }

  unfoldable pub done_cb : I2c S → I2c S
  done_cb s =
      let t = if s.pend_finish then complete s else s in
      update_irq (record t { stat = bit_or t.stat t.pend_stat; pend_stat = 0 })

  unfoldable pub defer : I2c S → ℕ → Bool → ℕ → ℕ → I2c S
  defer s stat_bits finish bytes now = record s {
    pend_stat = bit_or s.pend_stat stat_bits;
    pend_finish = s.pend_finish || finish;
    done_timer = some (now + byte_ns * (if nonzero bytes then bytes else 1));
  }

module _ {S : Type 0} (ops : BusOps S) where
  unfoldable pub finish : I2c S → ℕ → I2c S
  finish s now = defer (record s { bus = ops.end_transfer s.bus }) stat_ardy true 1 now

  unfoldable pub tx_byte : I2c S → ℕ → ℕ → I2c S
  tx_byte s byte now =
      let (b, nack) = ops.send s.bus byte in
      let left = if ltb 0 s.tx_remaining then s.tx_remaining - 1 else s.tx_remaining in
      let t = record s {
        bus = b;
        stat = if nack then bit_or s.stat stat_nack else s.stat;
        tx_remaining = left;
      } in
      if left == 0 then finish t now else t

  -- `for (int i = 0; i < n; i++) s->fifo[s->fifo_len++] = i2c_recv(s->bus);`
  unfoldable pub recv_bytes : ℕ → I2c S → I2c S
  recv_bytes zero s = s
  recv_bytes (suc n) s =
      let (v, b) = ops.recv s.bus in
      recv_bytes n (record s { bus = b; fifo = set s.fifo s.fifo_len v; fifo_len = s.fifo_len + 1 })

  -- The loop over the bytes queued before STT, with `n` rounds at most.
  unfoldable pub send_queued : ℕ → I2c S → ℕ → I2c S
  send_queued zero s now = s
  send_queued (suc n) s now =
      let rest =
        send_queued n
          (tx_byte (record s { fifo_pos = s.fifo_pos + 1 }) (get_or s.fifo s.fifo_pos 0) now) now in
      if ltb s.fifo_pos s.fifo_len && s.tx_active then rest else s

  unfoldable pub start_recv : I2c S → ℕ → I2c S
  start_recv s now =
      let n = min (if nonzero s.cnt then s.cnt else 1) fifo_size in
      defer (recv_bytes n (record s { rx_active = true; fifo_len = 0; fifo_pos = 0 })) stat_rrdy
        false n now

  unfoldable pub start_send : I2c S → ℕ → I2c S
  start_send s now =
      let q =
        send_queued (s.fifo_len - s.fifo_pos) (record s { tx_active = true; tx_remaining = s.cnt })
          now in
      let t = record q { fifo_len = 0; fifo_pos = 0 } in
      if t.tx_active
      then (if t.tx_remaining == 0
          then finish t now
          else record t { stat = bit_or t.stat stat_xrdy })
      else t

  unfoldable pub start : I2c S → ℕ → I2c S
  start s now =
      let recv = not (has s.con con_trx) in
      let (b, nack) = ops.start_transfer s.bus (bit_and s.sa 0x7f) recv in
      let t = record s { bus = b; stat = bit_or s.stat stat_bb } in
      if nack
      then defer (record t { fifo_len = 0; fifo_pos = 0 }) (bit_or stat_nack stat_ardy) true 1 now
      else if recv
      then start_recv t now
      else start_send t now

  unfoldable pub reset : I2c S → I2c S
  reset s = record s {
    sysc = 0;
    ie = 0;
    stat = 0;
    we = 0;
    buf = 0;
    cnt = 0;
    con = 0;
    oa = 0;
    sa = 0;
    psc = 0;
    scll = 0;
    sclh = 0;
    systest = 0;
    fifo_len = 0;
    fifo_pos = 0;
    tx_remaining = 0;
    tx_active = false;
    rx_active = false;
    pend_stat = 0;
    pend_finish = false;
    done_timer = none;
  }
