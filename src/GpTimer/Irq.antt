-- ===== src/GpTimer/Irq.antt =====
-- The interrupt line of the GP timer over any sequence of guest writes and callbacks.
use garmin_gpsmap_emu.Prelude.{ℕ}
use garmin_gpsmap_emu.Prelude.{bit_and, nonzero}
use garmin_gpsmap_emu.Prelude.{◌≡◌, refl, arith}
use garmin_gpsmap_emu.Prelude.{Bool}
use garmin_gpsmap_emu.Prelude.{List, [], ◌∷◌}
use garmin_gpsmap_emu.GpTimer.{Timer, update_irq, schedule, commit, tick}
use garmin_gpsmap_emu.GpTimer.Decode.{Reg, decode}
use garmin_gpsmap_emu.GpTimer.Regs.{write_reg, write}

abbrev pub pending : Timer → Bool
pending s = nonzero (bit_and (bit_and s.irqstatus s.irqenable) 7)

pub data Event : Type 0 where
  -- address, value, and the clock as the handler and `gpt_schedule` read it
  access : ℕ → ℕ → ℕ → ℕ → Event
  -- the timer callback
  expire : ℕ → ℕ → Event

module _ (muldiv64 : ℕ → ℕ → ℕ → ℕ) where
  schedule_keeps :
      (s : Timer) (now : ℕ)
      → ((schedule muldiv64 s now).irq ≡ s.irq)
        × ((schedule muldiv64 s now).irqstatus ≡ s.irqstatus)
        × ((schedule muldiv64 s now).irqenable ≡ s.irqenable)
  unfolding schedule
  schedule_keeps s now = ground arith

  schedule_line :
      (s : Timer) (now : ℕ)
      → s.irq ≡ pending s
      → (schedule muldiv64 s now).irq ≡ pending (schedule muldiv64 s now)
  schedule_line s now h = let k = schedule_keeps s now in rw (k.0, k.1, k.2) h

  write_reg_line :
      (s : Timer) (r : Reg) (val now later : ℕ)
      → s.irq ≡ pending s
      → (write_reg muldiv64 s r val now later).irq ≡ pending (write_reg muldiv64 s r val now later)
  unfolding write_reg update_irq
  write_reg_line s Reg.tiocp_cfg val now later h = ground arith
  write_reg_line s Reg.tclr val now later h = schedule_line _ later h
  write_reg_line s Reg.tcrr val now later h = schedule_line _ later h
  write_reg_line s Reg.ttgr val now later h = schedule_line _ later h
  write_reg_line s Reg.tmar val now later h = schedule_line _ later h
  write_reg_line s Reg.irqstatus val now later h = refl
  write_reg_line s Reg.irqstatus_raw val now later h = refl
  write_reg_line s Reg.irqenable_set val now later h = refl
  write_reg_line s Reg.irqenable_clr val now later h = refl
  write_reg_line s _ val now later h = h

  unfoldable pub step : Timer → Event → Timer
  step s (access addr val now later) = write muldiv64 s addr val now later
  step s (expire now later) = tick muldiv64 s now later

  step_line : (s : Timer) (e : Event) → s.irq ≡ pending s → (step s e).irq ≡ pending (step s e)
  unfolding step write tick update_irq
  step_line s (access addr val now later) h =
      write_reg_line s (decode s.legacy addr) val now later h
  step_line s (expire now later) h = schedule_line (update_irq (commit muldiv64 s now)) later refl

  unfoldable pub run : Timer → List Event → Timer
  run s [] = s
  run s (e ∷ es) = run (step s e) es

  -- Whatever the guest writes and whenever the callback comes, the interrupt line is high exactly
  -- when one of the three enabled interrupts is pending.
  pub run_line :
      (s : Timer) (es : List Event) → s.irq ≡ pending s → (run s es).irq ≡ pending (run s es)
  unfolding run
  run_line s [] h = h
  run_line s (e ∷ es) h = run_line (step s e) es (step_line s e h)
