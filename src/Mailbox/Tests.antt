-- ===== src/Mailbox/Tests.antt =====
-- The mailbox at concrete inputs.
use garmin_gpsmap_emu.Prelude.{◌*◌}
use garmin_gpsmap_emu.Prelude.{u32}
use garmin_gpsmap_emu.Prelude.{◌≡◌, refl, arith}
use garmin_gpsmap_emu.Prelude.{false}
use garmin_gpsmap_emu.Prelude.{none, [], ◌∷◌, map}
use garmin_gpsmap_emu.Prelude.{replicate}
use garmin_gpsmap_emu.Prelude.Bits.{bit-eq_zero}
use garmin_gpsmap_emu.Mailbox.{Mailbox, mpu_rx, update_irq, push, ducati_reply}
use garmin_gpsmap_emu.Mailbox.Regs.{write}
use garmin_gpsmap_emu.Mailbox.Fifo.{contents, HasRoom}
use garmin_gpsmap_emu.Mailbox.Echo.{request, ducati_reply_echoes}
use garmin_gpsmap_emu.Mailbox.NewMsg.{IsSound}
use garmin_gpsmap_emu.Mailbox.Events.{Event, run, newmsg_follows}

abbrev empty : Mailbox
empty = record {
  irq = λ u. false;
  reply_timer = none;
  fifo = λ m. replicate 4 0;
  count = λ m. 0;
  irqstatus = λ u. 0;
  irqenable = λ u. 0;
  sysconfig = 0;
  req = replicate 4 0;
  req_n = 0;
  seq = 0;
}

-- The firmware's four words on mailbox 3.
abbrev sent : Mailbox
unfolding write push update_irq
sent = write (write (write (write empty 0x4c 1 0) 0x4c 2 0) 0x4c 3 0) 0x4c 4 0

abbrev partly_sent : Mailbox
unfolding write push update_irq
partly_sent = write (write empty 0x4c 1 0) 0x4c 2 0

ducati_reply_echoes_example :
    (contents (ducati_reply sent) mpu_rx ≡ map u32 (request sent))
    × (request (ducati_reply sent) ≡ [])
unfolding sent request contents HasRoom write push update_irq
ducati_reply_echoes_example =
    ducati_reply_echoes sent
      (record {
        queue = (refl, omega arith);
        answer = (refl, omega arith);
        buffer = refl;
        filled = omega arith;
      })
      refl refl

empty-IsSound : IsSound empty
empty-IsSound = record {
  newmsg = record {
    fits = λ u h. omega arith;
    level = λ m u hm hu. bit-eq_zero 0 (2 * m) 0 (omega arith) (omega arith);
  };
  line = λ u h. refl;
}

newmsg_follows_example : IsSound (
    run empty
      (Event.store 0x4c 1 0 ∷ Event.store 0x104 0xff 0 ∷ Event.load 0x4c ∷ Event.expire ∷ []))
newmsg_follows_example =
    newmsg_follows empty
      (Event.store 0x4c 1 0 ∷ Event.store 0x104 0xff 0 ∷ Event.load 0x4c ∷ Event.expire ∷ [])
      empty-IsSound
