-- ===== src/GpTimer/Regs.antt =====
-- `gpt_read` and `gpt_write` of qemu/hw/arm/garmin_gpsmap.c.
use garmin_gpsmap_emu.Prelude.{ℕ}
use garmin_gpsmap_emu.Prelude.{bit_and, bit_or, u32, not32, not64, has}
use garmin_gpsmap_emu.Prelude.{if◌then◌else◌}
use garmin_gpsmap_emu.Prelude.{none}
use garmin_gpsmap_emu.GpTimer.{Timer, update_irq, current, schedule}
use garmin_gpsmap_emu.GpTimer.Decode.{Reg, decode}

module _ (muldiv64 : ℕ → ℕ → ℕ → ℕ) where
  unfoldable pub read_reg : Timer → Reg → ℕ → ℕ
  read_reg s Reg.tidr now = if s.legacy then 0x00000021 else 0x40000100
  read_reg s Reg.tiocp_cfg now = bit_and s.tiocp_cfg (not32 1)
  read_reg s Reg.tistat now = 1
  read_reg s Reg.irq_eoi now = 0
  read_reg s Reg.irqstatus_raw now = s.irqstatus
  read_reg s Reg.irqstatus now = bit_and s.irqstatus (if s.legacy then 0xffffffff else s.irqenable)
  read_reg s Reg.irqenable_set now = s.irqenable
  read_reg s Reg.irqenable_clr now = s.irqenable
  read_reg s Reg.irqwakeen now = s.irqwakeen
  read_reg s Reg.tclr now = s.tclr
  read_reg s Reg.tcrr now = current muldiv64 s now
  read_reg s Reg.tldr now = s.tldr
  read_reg s Reg.ttgr now = 0xffffffff
  read_reg s Reg.twps now = 0
  read_reg s Reg.tmar now = s.tmar
  read_reg s Reg.tcar1 now = 0
  read_reg s Reg.tcar2 now = 0
  read_reg s Reg.tsicr now = s.tsicr
  read_reg s Reg.tpir now = s.tpir
  read_reg s Reg.tnir now = s.tnir
  read_reg s Reg.tcvr now = s.tcvr
  read_reg s Reg.tocr now = s.tocr
  read_reg s Reg.towr now = s.towr
  read_reg s Reg.unknown now = 0

  unfoldable pub read : Timer → ℕ → ℕ → ℕ
  read s addr now = read_reg s (decode s.legacy addr) now

  -- `now` is read on entry, `later` by `gpt_schedule`.
  unfoldable pub write_reg : Timer → Reg → ℕ → ℕ → ℕ → Timer
  write_reg s Reg.tiocp_cfg val now later =
      if has val 1
      then update_irq (record s {
        tiocp_cfg = u32 val;
        tclr = 0;
        tcrr_base = 0;
        tldr = 0;
        tmar = 0;
        irqstatus = 0;
        irqenable = 0;
        timer = none;
      })
      else record s { tiocp_cfg = u32 val }
  write_reg s Reg.irqstatus_raw val now later =
      update_irq (record s { irqstatus = bit_or s.irqstatus (bit_and val 7) })
  write_reg s Reg.irqstatus val now later =
      update_irq (record s { irqstatus = bit_and s.irqstatus (not64 val) })
  write_reg s Reg.irqenable_set val now later = update_irq (record s {
    irqenable = if s.legacy then bit_and val 7 else bit_or s.irqenable (bit_and val 7);
  })
  write_reg s Reg.irqenable_clr val now later =
      update_irq (record s { irqenable = bit_and s.irqenable (not64 val) })
  write_reg s Reg.irqwakeen val now later = record s { irqwakeen = u32 val }
  write_reg s Reg.tclr val now later =
      schedule muldiv64
        (record s { tcrr_base = current muldiv64 s now; last_ns = now; tclr = u32 val }) later
  write_reg s Reg.tcrr val now later =
      schedule muldiv64 (record s { tcrr_base = u32 val; last_ns = now }) later
  write_reg s Reg.tldr val now later = record s { tldr = u32 val }
  write_reg s Reg.ttgr val now later =
      schedule muldiv64 (record s { tcrr_base = s.tldr; last_ns = now }) later
  write_reg s Reg.tmar val now later = schedule muldiv64 (record s { tmar = u32 val }) later
  write_reg s Reg.tsicr val now later = record s { tsicr = u32 (bit_and val (not32 2)) }
  write_reg s Reg.tpir val now later = record s { tpir = u32 val }
  write_reg s Reg.tnir val now later = record s { tnir = u32 val }
  write_reg s Reg.tcvr val now later = record s { tcvr = u32 val }
  write_reg s Reg.tocr val now later = record s { tocr = u32 val }
  write_reg s Reg.towr val now later = record s { towr = u32 val }
  write_reg s _ val now later = s

  unfoldable pub write : Timer → ℕ → ℕ → ℕ → ℕ → Timer
  write s addr val now later = write_reg s (decode s.legacy addr) val now later
