-- ===== src/Mailbox/Events.antt =====
-- The events of the mailbox of qemu/hw/arm/garmin_gpsmap.c: accesses of the guest and the
-- callback of the pretend Ducati.
use garmin_gpsmap_emu.Prelude.{ℕ, zero, suc, ◌-◌, ◌/◌, ◌<◌}
use garmin_gpsmap_emu.Prelude.{bit_and, nonzero, has}
use garmin_gpsmap_emu.Prelude.{refl, arith}
use garmin_gpsmap_emu.Prelude.{◌&&◌, ◌==◌, ltb}
use garmin_gpsmap_emu.Prelude.{List, [], ◌∷◌}
use garmin_gpsmap_emu.Prelude.{if_elim}
use garmin_gpsmap_emu.Mailbox.{
  Mailbox, mbox_n, depth, mpu_tx, mpu_rx, push, pop, collect, push_all, ducati_reply,
}
use garmin_gpsmap_emu.Mailbox.Regs.{within, read, write}
use garmin_gpsmap_emu.Mailbox.NewMsg.{
  IsLevel, IsSound, update_irq-IsSound, push-IsSound, pop-IsSound, soft_reset-IsSound, same-IsSound,
  clear-IsLevel,
}

-- A guest read of an address, a guest write of a value with the clock value, and the callback.
pub data Event : Type 0 where
  load : ℕ → Event
  store : ℕ → ℕ → ℕ → Event
  expire : Event

unfoldable pub step : Mailbox → Event → Mailbox
step s (load addr) = (read s addr).1
step s (store addr val now) = write s addr val now
step s expire = ducati_reply s

unfoldable pub run : Mailbox → List Event → Mailbox
run s [] = s
run s (e ∷ es) = run (step s e) es

read-IsSound : (s : Mailbox) (addr : ℕ) → IsSound s → IsSound (read s addr).1
unfolding read
read-IsSound s addr l =
    let S : ℕ × Mailbox → Type 0 = λ r. IsSound r.1 in
    if_elim S (addr == 0x00) (λ _. l)
      (λ _.
        if_elim S (addr == 0x10) (λ _. l)
          (λ _.
            if_elim S (within 0x40 0x5c addr)
              (λ e. pop-IsSound s ((addr - 0x40) / 4) (ground arith) l)
              (λ _.
                if_elim S (within 0x80 0x9c addr) (λ _. l)
                  (λ _.
                    if_elim S (within 0xc0 0xdc addr) (λ _. l)
                      (λ _.
                        if_elim S (within 0x100 0x13c addr)
                          (λ _.
                            if_elim S (bit_and addr 0xc == 0) (λ _. l)
                              (λ _. if_elim S (bit_and addr 0xc == 4) (λ _. l) (λ _. l)))
                          (λ _. l))))))

write-IsSound : (s : Mailbox) (addr val now : ℕ) → IsSound s → IsSound (write s addr val now)
unfolding write
write-IsSound s addr val now l =
    if_elim IsSound (addr == 0x10)
      (λ _.
        if_elim IsSound (has val 1) (λ _. soft_reset-IsSound _)
          (λ _. same-IsSound s _ refl refl refl refl l))
      (λ _.
        if_elim IsSound (within 0x40 0x5c addr)
          (λ e.
            let p = push-IsSound s ((addr - 0x40) / 4) val (ground arith) l.newmsg in
            if_elim IsSound ((addr - 0x40) / 4 == mpu_tx)
              (λ _. same-IsSound _ _ refl refl refl refl p) (λ _. p))
          (λ _.
            if_elim IsSound (within 0x100 0x13c addr)
              (λ _. update_irq-IsSound _ (
                if_elim IsLevel (bit_and addr 0xc == 0) (λ _. l.newmsg)
                  (λ _.
                    if_elim IsLevel (bit_and addr 0xc == 4)
                      (λ _. clear-IsLevel s ((addr - 0x100) / 0x10) val l.newmsg)
                      (λ _.
                        if_elim IsLevel (bit_and addr 0xc == 8)
                          (λ _. record { fits = l.newmsg.fits; level = l.newmsg.level })
                          (λ _. record { fits = l.newmsg.fits; level = l.newmsg.level })))))
              (λ _. l)))

push_all-IsSound :
    (ws : List ℕ) (s : Mailbox) (m : ℕ) → m < mbox_n → IsSound s → IsSound (push_all s m ws)
unfolding push_all
push_all-IsSound [] s m h l = l
push_all-IsSound (w ∷ ws) s m h l =
    push_all-IsSound ws (push s m w) m h (push-IsSound s m w h l.newmsg)

collect-IsSound : (n : ℕ) (s : Mailbox) → IsSound s → IsSound (collect n s)
unfolding collect
collect-IsSound zero s l = l
collect-IsSound (suc n) s l =
    if_elim IsSound (nonzero (s.count mpu_tx) && ltb s.req_n depth)
      (λ _. collect-IsSound n _ (
        same-IsSound (pop s mpu_tx).1 _ refl refl refl refl (pop-IsSound s mpu_tx (omega arith) l)))
      (λ _. l)

ducati_reply-IsSound : (s : Mailbox) → IsSound s → IsSound (ducati_reply s)
unfolding ducati_reply
ducati_reply-IsSound s l =
    let c = collect-IsSound depth s l in
    if_elim IsSound (ltb (collect depth s).req_n depth) (λ _. c)
      (λ _.
        push_all-IsSound (collect depth s).req _ mpu_rx (omega arith)
          (same-IsSound (collect depth s) _ refl refl refl refl c))

step-IsSound : (s : Mailbox) (e : Event) → IsSound s → IsSound (step s e)
unfolding step
step-IsSound s (load addr) l = read-IsSound s addr l
step-IsSound s (store addr val now) l = write-IsSound s addr val now l
step-IsSound s expire l = ducati_reply-IsSound s l

-- From a state in which it holds, whatever the guest reads and writes and whenever the callback
-- comes: the status of each user shows NEWMSG for exactly the mailboxes that hold a word, the
-- status words have 32 bits, and the line of each user is up exactly when a status bit is up
-- that the user enabled.
pub newmsg_follows : (s : Mailbox) (es : List Event) → IsSound s → IsSound (run s es)
unfolding run
newmsg_follows s [] l = l
newmsg_follows s (e ∷ es) l = newmsg_follows (step s e) es (step-IsSound s e l)
