-- ===== src/GpTimer.antt =====
-- The OMAP4 general purpose timer of qemu/hw/arm/garmin_gpsmap.c (`struct Omap4GPTimer`).
-- `irq` is the level last given to `qemu_set_irq`; `timer` is the deadline last given to
-- `timer_mod`, none after `timer_del`. Each handler takes the clock values that it reads.
pub mod Decode
pub mod Regs
pub mod Count
pub mod Irq
pub mod Resync
pub mod Ticks
mod Tests
use garmin_gpsmap_emu.Prelude.{ℕ, ◌+◌, ◌-◌, ◌%◌, ◌^◌}
use garmin_gpsmap_emu.Prelude.{bit_and, bit_or, u32, u64, not32, shr, nonzero, has}
use garmin_gpsmap_emu.Prelude.{Bool, not, ◌&&◌, if◌then◌else◌, ◌==◌, ltb, leb}
use garmin_gpsmap_emu.Prelude.{Option, none, some}

pub record Timer : Type 0 where
  pub irq : Bool
  pub timer : Option ℕ
  pub legacy : Bool
  pub freq : ℕ
  pub tiocp_cfg : ℕ
  pub irqstatus : ℕ
  pub irqenable : ℕ
  pub irqwakeen : ℕ
  pub tclr : ℕ
  pub tldr : ℕ
  pub tmar : ℕ
  pub tsicr : ℕ
  pub tpir : ℕ
  pub tnir : ℕ
  pub tcvr : ℕ
  pub tocr : ℕ
  pub towr : ℕ
  pub tcrr_base : ℕ
  pub last_ns : ℕ

abbrev pub tclr_st : ℕ
tclr_st = 2 ^ 0

abbrev pub tclr_ar : ℕ
tclr_ar = 2 ^ 1

abbrev pub tclr_pre : ℕ
tclr_pre = 2 ^ 5

abbrev pub tclr_ce : ℕ
tclr_ce = 2 ^ 6

abbrev pub irq_mat : ℕ
irq_mat = 2 ^ 0

abbrev pub irq_ovf : ℕ
irq_ovf = 2 ^ 1

abbrev pub nanoseconds_per_second : ℕ
nanoseconds_per_second = 1000000000

unfoldable pub rate : Timer → ℕ
rate s =
    let r = if has s.tclr tclr_pre then shr s.freq (bit_and (shr s.tclr 2) 7 + 1) else s.freq in
    if nonzero r then r else 1

unfoldable pub update_irq : Timer → Timer
update_irq s = record s { irq = nonzero (bit_and (bit_and s.irqstatus s.irqenable) 7) }

-- `muldiv64 a b c` is QEMU's a * b / c.
module _ (muldiv64 : ℕ → ℕ → ℕ → ℕ) where
  -- The counter with the elapsed time folded in, before a wrap.
  unfoldable pub elapsed : Timer → ℕ → ℕ
  elapsed s now =
      u64 (s.tcrr_base + muldiv64 (u64 (now + 2 ^ 64 - s.last_ns)) (rate s) nanoseconds_per_second)

  -- The counter after an overflow with automatic reload.
  unfoldable pub reload : Timer → ℕ → ℕ
  reload s v = u32 (s.tldr + (v - 0x100000000) % (0x100000000 - s.tldr))

  unfoldable pub current : Timer → ℕ → ℕ
  current s now =
      let v = elapsed s now in
      if not (has s.tclr tclr_st)
      then s.tcrr_base
      else if leb v 0xffffffff
      then u32 v
      else if not (has s.tclr tclr_ar)
      then 0xffffffff
      else reload s v

  -- The ticks to the next overflow or match.
  unfoldable pub next_event : Timer → ℕ → ℕ
  next_event s cur =
      let to_ovf = 0x100000000 - cur in
      let next =
        if has s.tclr tclr_ce && ltb cur s.tmar
        then (if ltb (s.tmar - cur) to_ovf then s.tmar - cur else to_ovf)
        else to_ovf in
      if next == 0 then 1 else next

  unfoldable pub schedule : Timer → ℕ → Timer
  schedule s now =
      if not (has s.tclr tclr_st)
      then record s { timer = none }
      else let cur = current s now in
        let wait = muldiv64 (next_event s cur) nanoseconds_per_second (rate s) in
        record s { tcrr_base = cur; last_ns = now; timer = some (now + wait) }

  -- What the timer callback commits before the interrupt and the next deadline are worked out.
  unfoldable pub commit : Timer → ℕ → Timer
  commit s now =
      let v = elapsed s now in
      let mat =
        if has s.tclr tclr_ce && leb s.tcrr_base s.tmar && leb s.tmar v
        then bit_or s.irqstatus irq_mat
        else s.irqstatus in
      if ltb 0xffffffff v
      then (if has s.tclr tclr_ar
          then record s { irqstatus = bit_or mat irq_ovf; tcrr_base = reload s v; last_ns = now }
          else record s {
            irqstatus = bit_or mat irq_ovf;
            tcrr_base = 0xffffffff;
            tclr = bit_and s.tclr (not32 tclr_st);
            last_ns = now;
          })
      else record s { irqstatus = mat; tcrr_base = u32 v; last_ns = now }

  -- `gpt_tick`; `later` is the clock as `gpt_schedule` reads it.
  unfoldable pub tick : Timer → ℕ → ℕ → Timer
  tick s now later = schedule (update_irq (commit s now)) later

unfoldable pub reset : Timer → ℕ → Timer
reset s now = record s {
  tiocp_cfg = 0;
  irqstatus = 0;
  irqenable = 0;
  irqwakeen = 0;
  tclr = 0;
  tldr = 0;
  tmar = 0;
  tsicr = 0;
  tcrr_base = 0;
  last_ns = now;
  timer = none;
}
