-- ===== src/I2c/Tests.antt =====
-- The controller with one register file at address 0x48 on its bus, and the theorems at it.
use garmin_gpsmap_emu.Prelude.{has}
use garmin_gpsmap_emu.Prelude.{◌≡◌, refl, arith}
use garmin_gpsmap_emu.Prelude.{true, false, not, if◌then◌else◌, ◌==◌}
use garmin_gpsmap_emu.Prelude.{none, List, [], ◌∷◌}
use garmin_gpsmap_emu.Prelude.{set, replicate}
use garmin_gpsmap_emu.Regfile.{Regfile, I2cEvent}
use garmin_gpsmap_emu.Regfile
use garmin_gpsmap_emu.Regfile.RoundTrip.{send_all, recv_all, write-read}
use garmin_gpsmap_emu.I2c.{
  I2c, refresh, update_irq, complete, done_cb, defer, finish, recv_bytes, start_recv, start,
  stat_rrdy,
}
use garmin_gpsmap_emu.I2c.Bus.{BusOps, received}
use garmin_gpsmap_emu.I2c.Regs.{decode, read_data, read_reg, read, write_con, write_reg, write}
use garmin_gpsmap_emu.I2c.Valid.{IsValid, Event, load, store, expire, step, run, run-IsValid}
use garmin_gpsmap_emu.I2c.Receive.{receive}
use garmin_gpsmap_emu.I2c.Window.{read_bytes}

abbrev ops : BusOps Regfile
unfolding Regfile.event Regfile.send Regfile.recv
ops = record {
  start_transfer = λ b addr recv. (
    Regfile.event b (if recv then I2cEvent.start_recv else I2cEvent.start_send),
    not (addr == 0x48),
  );
  send = λ b byte. (Regfile.send b byte, false);
  recv = λ b. Regfile.recv b;
  end_transfer = λ b. Regfile.event b I2cEvent.finish;
}

abbrev pmic : Regfile
pmic = record { regs = set (replicate 256 7) 5 42; ptr = 5; have_ptr = true }

abbrev idle : I2c Regfile
idle = record {
  bus = pmic;
  irq = false;
  sysc = 0;
  ie = 0x1c;
  stat = 0;
  we = 0;
  buf = 0;
  cnt = 2;
  con = 0x8000;
  oa = 0;
  sa = 0x48;
  psc = 0;
  scll = 0;
  sclh = 0;
  systest = 0;
  fifo = replicate 64 0;
  fifo_len = 0;
  fifo_pos = 0;
  tx_remaining = 0;
  tx_active = false;
  rx_active = false;
  done_timer = none;
  pend_stat = 0;
  pend_finish = false;
  irq_level = false;
}

idle-IsValid : IsValid idle
idle-IsValid = record { array = refl; len_in = omega arith; pos_in = omega arith }

-- STT, the completion, two reads of DATA, the completion.
abbrev script : List Event
script = store 0xa4 0x8403 1000 ∷ expire ∷ load 0x9c 2000 ∷ load 0x9c 2000 ∷ expire ∷ []

script_ends :
    ((run ops idle script).stat ≡ 0x10c)
    × ((run ops idle script).irq ≡ true)
    × ((run ops idle script).con ≡ 0x8400)
unfolding run step write write_reg decode write_con start start_recv recv_bytes defer update_irq
    refresh done_cb complete read read_reg read_data finish Regfile.event Regfile.recv Regfile.send
script_ends = (refl, refl, refl)

run-IsValid_example : IsValid (run ops idle script)
run-IsValid_example = run-IsValid ops idle script idle-IsValid

receive_example :
    let t = done_cb (write ops idle 0xa4 0x8403 1000) in
    (has t.stat stat_rrdy ≡ true)
    × ((read_bytes ops 2 t 2000).0 ≡ received ops 2 (ops.start_transfer pmic 0x48 true).0)
    × ((read_bytes ops 2 t 2000).1.pend_finish ≡ true)
unfolding ops
receive_example =
    receive ops idle 0x8403 1000 2000 idle-IsValid (omega arith) refl refl refl refl refl refl refl
      refl

abbrev finished : I2c Regfile
finished = record idle { con = 0x8402; stat = 0x1000; pend_stat = 4; pend_finish = true }

write-read_example :
    let written =
      send_all (Regfile.send (Regfile.event pmic I2cEvent.start_send) 254) (1 ∷ 2 ∷ 3 ∷ []) in
    recv_all 3 (
      Regfile.event
        (Regfile.send (Regfile.event written I2cEvent.start_send) 254)
        I2cEvent.start_recv)
    ≡ 1 ∷ 2 ∷ 3 ∷ []
write-read_example = write-read pmic 254 (1 ∷ 2 ∷ 3 ∷ []) refl (omega arith) (omega arith)
