-- ===== src/I2c/Regs.antt =====
-- `omap4_i2c_read` and `omap4_i2c_write` of qemu/hw/arm/garmin_gpsmap.c.
use garmin_gpsmap_emu.Prelude.{ℕ, ◌+◌, ◌-◌}
use garmin_gpsmap_emu.Prelude.{bit_and, bit_or, u8, u32, not32, not64, shl, has}
use garmin_gpsmap_emu.Prelude.{false, not, ◌&&◌, if◌then◌else◌, ◌==◌, ltb, leb}
use garmin_gpsmap_emu.Prelude.{none}
use garmin_gpsmap_emu.Prelude.{get_or, set}
use garmin_gpsmap_emu.I2c.{I2c, refresh, update_irq, finish, tx_byte, start, fifo_size}
use garmin_gpsmap_emu.I2c.{con_stt, con_mst, con_en}
use garmin_gpsmap_emu.I2c.Bus.{BusOps}

-- The case labels of the two switch statements over the register address.
pub data Reg : Type 0 where
  revnb_lo revnb_hi sysc irqstatus_raw irqstatus irqenable_set irqenable_clr we ie stat syss : Reg
  buf cnt fifo_data con oa sa psc scll sclh systest bufstat unimplemented : Reg

unfoldable pub decode : ℕ → Reg
decode addr =
    if addr == 0x00
    then revnb_lo
    else if addr == 0x04
    then revnb_hi
    else if addr == 0x10
    then sysc
    else if addr == 0x24
    then irqstatus_raw
    else if addr == 0x28
    then irqstatus
    else if addr == 0x2c
    then irqenable_set
    else if addr == 0x30
    then irqenable_clr
    else if addr == 0x34
    then we
    else if addr == 0x84
    then ie
    else if addr == 0x88
    then stat
    else if addr == 0x90
    then syss
    else if addr == 0x94
    then buf
    else if addr == 0x98
    then cnt
    else if addr == 0x9c
    then fifo_data
    else if addr == 0xa4
    then con
    else if addr == 0xa8
    then oa
    else if addr == 0xac
    then sa
    else if addr == 0xb0
    then psc
    else if addr == 0xb4
    then scll
    else if addr == 0xb8
    then sclh
    else if addr == 0xbc
    then systest
    else if addr == 0xc0
    then bufstat
    else unimplemented

module _ {S : Type 0} (ops : BusOps S) where
  -- The DATA register pops the FIFO; the last byte finishes the transfer.
  unfoldable pub read_data : I2c S → ℕ → ℕ × I2c S
  read_data s now =
      if s.rx_active && ltb s.fifo_pos s.fifo_len
      then (let t = record s { fifo_pos = s.fifo_pos + 1 } in
          (get_or s.fifo s.fifo_pos 0, if leb t.fifo_len t.fifo_pos then finish ops t now else t))
      else (0, s)

  unfoldable pub read_reg : I2c S → Reg → ℕ → ℕ × I2c S
  read_reg s revnb_lo now = (0x0a, s)
  read_reg s revnb_hi now = (0x50, s)
  read_reg s sysc now = (bit_and s.sysc (not32 2), s)
  read_reg s irqstatus_raw now = (s.stat, s)
  read_reg s irqstatus now = (bit_and s.stat s.ie, s)
  read_reg s irqenable_set now = (s.ie, s)
  read_reg s irqenable_clr now = (s.ie, s)
  read_reg s we now = (s.we, s)
  read_reg s ie now = (s.ie, s)
  read_reg s stat now = (s.stat, s)
  read_reg s syss now = (1, s)
  read_reg s buf now = (s.buf, s)
  read_reg s cnt now = (s.cnt, s)
  read_reg s fifo_data now = read_data s now
  read_reg s con now = (s.con, s)
  read_reg s oa now = (s.oa, s)
  read_reg s sa now = (s.sa, s)
  read_reg s psc now = (s.psc, s)
  read_reg s scll now = (s.scll, s)
  read_reg s sclh now = (s.sclh, s)
  read_reg s systest now = (s.systest, s)
  read_reg s bufstat now =
      let rx = shl (bit_and (if s.rx_active then s.fifo_len - s.fifo_pos else 0) 0x3f) 8 in
      let tx = bit_and (if s.tx_active then s.tx_remaining else 0) 0x3f in
      (bit_or (bit_or rx tx) 0x8000, s)
  read_reg s unimplemented now = (0, s)

  unfoldable pub read : I2c S → ℕ → ℕ → ℕ × I2c S
  read s addr now = read_reg (refresh s) (decode addr) now

  unfoldable pub write_data : I2c S → ℕ → ℕ → I2c S
  write_data s val now =
      if s.tx_active && not s.pend_finish
      then tx_byte ops s (u8 val) now
      else if ltb s.fifo_len fifo_size
      then record s { fifo = set s.fifo s.fifo_len (u8 val); fifo_len = s.fifo_len + 1 }
      else s

  unfoldable pub write_con : I2c S → ℕ → ℕ → I2c S
  write_con s val now =
      if not (has val con_en)
      then record s {
        con = u32 val;
        tx_active = false;
        rx_active = false;
        fifo_len = 0;
        fifo_pos = 0;
      }
      else let t = record s { con = u32 val } in
        if has val con_stt && has val con_mst && not s.tx_active && not s.rx_active
        then start ops t now
        else t

  unfoldable pub write_reg : I2c S → Reg → ℕ → ℕ → I2c S
  write_reg s sysc val now =
      if has val 2
      then record s {
        sysc = u32 val;
        stat = 0;
        con = 0;
        ie = 0;
        cnt = 0;
        fifo_len = 0;
        fifo_pos = 0;
        tx_active = false;
        rx_active = false;
        pend_stat = 0;
        pend_finish = false;
        done_timer = none;
      }
      else record s { sysc = u32 val }
  write_reg s irqstatus_raw val now = record s { stat = u32 (bit_or s.stat val) }
  write_reg s irqstatus val now = record s { stat = bit_and s.stat (not64 val) }
  write_reg s stat val now = record s { stat = bit_and s.stat (not64 val) }
  write_reg s irqenable_set val now = record s { ie = u32 (bit_or s.ie val) }
  write_reg s irqenable_clr val now = record s { ie = bit_and s.ie (not64 val) }
  write_reg s we val now = record s { we = u32 val }
  write_reg s ie val now = record s { ie = u32 val }
  write_reg s buf val now =
      let t = record s { buf = u32 (bit_and val (not32 0x4040)) } in
      if has val 0x40 then record t { fifo_len = 0; fifo_pos = 0 } else t
  write_reg s cnt val now = record s { cnt = bit_and val 0xffff }
  write_reg s fifo_data val now = write_data s val now
  write_reg s con val now = write_con s val now
  write_reg s oa val now = record s { oa = u32 val }
  write_reg s sa val now = record s { sa = bit_and val 0x3ff }
  write_reg s psc val now = record s { psc = u32 val }
  write_reg s scll val now = record s { scll = u32 val }
  write_reg s sclh val now = record s { sclh = u32 val }
  write_reg s systest val now = record s { systest = u32 val }
  write_reg s _ val now = s

  unfoldable pub write : I2c S → ℕ → ℕ → ℕ → I2c S
  write s addr val now = update_irq (write_reg s (decode addr) val now)
