-- ===== src/Mailbox/Regs.antt =====
-- `mbox_read` and `mbox_write` of qemu/hw/arm/garmin_gpsmap.c. Accesses are of aligned words.
use garmin_gpsmap_emu.Prelude.{ℕ, zero, suc, ◌+◌, ◌-◌, ◌*◌, ◌/◌, ◌^◌}
use garmin_gpsmap_emu.Prelude.{bit_and, bit_or, u32, not32, not64, nonzero, has}
use garmin_gpsmap_emu.Prelude.{Bool, ◌&&◌, if◌then◌else◌, ◌==◌, leb}
use garmin_gpsmap_emu.Prelude.{some}
use garmin_gpsmap_emu.Prelude.{update}
use garmin_gpsmap_emu.Mailbox.{Mailbox, mbox_n, depth, mpu_tx, reply_ns, update_irq, push, pop}

abbrev pub within : ℕ → ℕ → ℕ → Bool
within lo hi addr = leb lo addr && leb addr hi

unfoldable pub read : Mailbox → ℕ → ℕ × Mailbox
read s addr =
    if addr == 0x00
    then (0x00000400, s)
    else if addr == 0x10
    then (bit_and s.sysconfig (not32 1), s)
    else if within 0x40 0x5c addr
    then pop s ((addr - 0x40) / 4)
    else if within 0x80 0x9c addr
    then (if leb depth (s.count ((addr - 0x80) / 4)) then 1 else 0, s)
    else if within 0xc0 0xdc addr
    then (s.count ((addr - 0xc0) / 4), s)
    else if within 0x100 0x13c addr
    then (let idx = (addr - 0x100) / 0x10 in
        let sel = bit_and addr 0xc in
        if sel == 0
        then (s.irqstatus idx, s)
        else if sel == 4
        then (bit_and (s.irqstatus idx) (s.irqenable idx), s)
        else (s.irqenable idx, s))
    else (0, s)

-- NEWMSG is a level: the bits of mailboxes below `n` that hold a word are taken out of `val`.
unfoldable pub keep_level : ℕ → (ℕ → ℕ) → ℕ → ℕ
keep_level zero count val = val
keep_level (suc m) count val =
    let v = keep_level m count val in
    if nonzero (count m) then bit_and v (not64 (2 ^ (2 * m))) else v

unfoldable pub soft_reset : Mailbox → Mailbox
soft_reset s =
    update_irq (record s { count = λ m. 0; irqstatus = λ u. 0; irqenable = λ u. 0; req_n = 0 })

unfoldable pub write : Mailbox → ℕ → ℕ → ℕ → Mailbox
write s addr val now =
    if addr == 0x10
    then (let t = record s { sysconfig = u32 val } in if has val 1 then soft_reset t else t)
    else if within 0x40 0x5c addr
    then (let idx = (addr - 0x40) / 4 in
        let t = push s idx val in
        if idx == mpu_tx then record t { reply_timer = some (now + reply_ns) } else t)
    else if within 0x100 0x13c addr
    then (let idx = (addr - 0x100) / 0x10 in
        let sel = bit_and addr 0xc in
        update_irq (
          if sel == 0
          then s
          else if sel == 4
          then record s {
            irqstatus =
                update s.irqstatus idx
                  (bit_and (s.irqstatus idx) (not64 (keep_level mbox_n s.count val)));
          }
          else if sel == 8
          then record s { irqenable = update s.irqenable idx (u32 (bit_or (s.irqenable idx) val)) }
          else record s {
            irqenable = update s.irqenable idx (bit_and (s.irqenable idx) (not64 val));
          }))
    else s
