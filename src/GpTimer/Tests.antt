-- ===== src/GpTimer/Tests.antt =====
-- A running timer near its overflow, and the theorems at it.
use garmin_gpsmap_emu.Prelude.{ℕ, ◌+◌, ◌*◌, ◌/◌, ◌≤◌}
use garmin_gpsmap_emu.Prelude.{◌≡◌, refl, arith}
use garmin_gpsmap_emu.Prelude.{has, true, false, ◌&&◌, if◌then◌else◌}
use garmin_gpsmap_emu.Prelude.{some, List, [], ◌∷◌}
use garmin_gpsmap_emu.GpTimer.{
  Timer, tclr_ce, rate, update_irq, elapsed, reload, current, next_event, schedule, commit, tick,
}
use garmin_gpsmap_emu.Prelude.Bits.{bit}
use garmin_gpsmap_emu.GpTimer.Decode.{decode}
use garmin_gpsmap_emu.GpTimer.Regs.{write_reg, write}
use garmin_gpsmap_emu.GpTimer.Count.{IsWords, current-tick}
use garmin_gpsmap_emu.GpTimer.Ticks.{ticks, gone, passed_top, met, commit-ticks, commit-met}
use garmin_gpsmap_emu.GpTimer.Irq.{Event, access, expire, pending, run, run_line}
use garmin_gpsmap_emu.GpTimer.Resync.{IsLastTick, resync_lag, last_tick_repeats, on_time_times}

abbrev muldiv : ℕ → ℕ → ℕ → ℕ
muldiv a b c = a * b / c

-- GPTIMER3 with automatic reload from 0xffff0000, one tick before the overflow.
abbrev gpt3 : Timer
gpt3 = record {
  irq = false;
  timer = some 1026;
  legacy = false;
  freq = 38400000;
  tiocp_cfg = 0;
  irqstatus = 0;
  irqenable = 2;
  irqwakeen = 0;
  tclr = 3;
  tldr = 0xffff0000;
  tmar = 0;
  tsicr = 0;
  tpir = 0;
  tnir = 0;
  tcvr = 0;
  tocr = 0;
  towr = 0;
  tcrr_base = 0xffffffff;
  last_ns = 1000;
}

gpt3-IsWords : IsWords gpt3
gpt3-IsWords = omega arith

gpt3-IsLastTick : IsLastTick muldiv gpt3
unfolding rate
gpt3-IsLastTick = record {
  top = record { running = refl; no_compare = refl; speed = refl; base = refl };
  armed = refl;
}

-- A callback that is 50 ns late sees the overflow and reloads; the guest acknowledges.
overflow_late :
    ((tick muldiv gpt3 1076 1076).irq ≡ true)
    × ((tick muldiv gpt3 1076 1076).tcrr_base ≡ 0xffff0001)
    × ((write muldiv (tick muldiv gpt3 1076 1076) 0x28 2 1100 1100).irq ≡ false)
unfolding tick schedule commit current elapsed reload rate next_event update_irq write write_reg
    decode
overflow_late = (refl, refl, refl)

commit-ticks_example :
    (current muldiv gpt3 1076 ≡ ticks gpt3 (gone muldiv gpt3 1076))
    × ((commit muldiv gpt3 1076).tcrr_base ≡ ticks gpt3 (gone muldiv gpt3 1076))
    × (bit (commit muldiv gpt3 1076).irqstatus 1
        ≡ (if passed_top gpt3 (gone muldiv gpt3 1076) then 1 else bit gpt3.irqstatus 1))
commit-ticks_example =
    commit-ticks muldiv gpt3 1076 gpt3-IsWords refl (omega arith) (omega arith)
      (unfold rate in omega arith)

-- The same timer with compare, two ticks before TMAR.
abbrev comparing : Timer
comparing = record gpt3 { tclr = 0x41; tcrr_base = 10; tmar = 12 }

commit-met_example : bit (commit muldiv comparing 1076).irqstatus 0 ≡ (
    if has comparing.tclr tclr_ce && met comparing (gone muldiv comparing 1076)
    then 1
    else bit comparing.irqstatus 0)
commit-met_example =
    commit-met muldiv comparing 1076 (omega arith) (omega arith) (omega arith) (omega arith)
      (omega arith) (unfold rate in omega arith)

current-tick_example : current muldiv (tick muldiv gpt3 1076 1076) 1076 ≡ current muldiv gpt3 1076
current-tick_example = current-tick muldiv gpt3 1076 (λ b c. omega arith) gpt3-IsWords refl

abbrev script : List Event
script = expire 1076 1080 ∷ access 0x28 2 1100 1100 ∷ access 0x24 7 1200 1200 ∷ []

run_line_example : (run muldiv gpt3 script).irq ≡ pending (run muldiv gpt3 script)
run_line_example = run_line muldiv gpt3 script refl

resync_lag_example :
    (current muldiv (schedule muldiv (record gpt3 { tcrr_base = 0 }) 2000) 3000
      ≤ current muldiv (record gpt3 { tcrr_base = 0 }) 3000)
    × (current muldiv (record gpt3 { tcrr_base = 0 }) 3000
        ≤ current muldiv (schedule muldiv (record gpt3 { tcrr_base = 0 }) 2000) 3000 + 1)
resync_lag_example =
    resync_lag muldiv (record gpt3 { tcrr_base = 0 }) 2000 3000 (λ a b c. refl) refl (omega arith)
      (omega arith) (omega arith) (unfold rate in omega arith)

last_tick_repeats_example :
    ((on_time_times muldiv 3 gpt3).irqstatus ≡ 0)
    × ((on_time_times muldiv 3 gpt3).tcrr_base ≡ 0xffffffff)
    × ((on_time_times muldiv 3 gpt3).timer ≡ some ((on_time_times muldiv 3 gpt3).last_ns + 26))
last_tick_repeats_example = last_tick_repeats muldiv gpt3 3 (λ a b c. refl) gpt3-IsLastTick
