-- ===== src/GpTimer/Count.antt =====
-- The counter of the GP timer: its range, and what the callback does to it.
use garmin_gpsmap_emu.Prelude.{ℕ, ◌+◌, ◌-◌, ◌^◌, ◌≤◌, ◌<◌}
use garmin_gpsmap_emu.Prelude.{u64, has}
use garmin_gpsmap_emu.Prelude.{◌≡◌, refl, ◌∙◌, inl, inr, arith}
use garmin_gpsmap_emu.Prelude.{true, false}
use garmin_gpsmap_emu.Prelude.{none, Bool-cases}
use garmin_gpsmap_emu.GpTimer.{Timer, tclr_st, rate, update_irq, elapsed, reload}
use garmin_gpsmap_emu.GpTimer.{current, schedule, commit, tick, nanoseconds_per_second}

-- The words of a timer are 32 bits wide.
pub record IsWords (s : Timer) : Type 0 where
  pub base : s.tcrr_base < 2 ^ 32
  pub load : s.tldr < 2 ^ 32

module _ (muldiv64 : ℕ → ℕ → ℕ → ℕ) where
  -- The counter lies between the reload value and 2 ^ 32 after an overflow.
  reload_range :
      (s : Timer) (v : ℕ)
      → s.tldr < 2 ^ 32
      → (s.tldr ≤ reload muldiv64 s v) × (reload muldiv64 s v < 2 ^ 32)
  unfolding reload
  reload_range s v h = omega arith

  -- The counter reads as a 32-bit word at every clock value.
  current-lt : (s : Timer) (now : ℕ) → IsWords s → current muldiv64 s now < 2 ^ 32
  unfolding current reload
  current-lt s now v = ground arith

  -- With no time gone by, a counter that fits 32 bits reads back as its base.
  current_at_base :
      (s : Timer) (now : ℕ)
      → ((b c : ℕ) → muldiv64 0 b c ≡ 0)
      → s.last_ns ≡ now
      → s.tcrr_base < 2 ^ 32
      → current muldiv64 s now ≡ s.tcrr_base
  unfolding current elapsed
  current_at_base s now m e h =
      let z : u64 (now + 2 ^ 64 - s.last_ns) ≡ 0 = omega arith in
      rw z (ground (arith, m (rate s) nanoseconds_per_second))

  schedule_running :
      (s : Timer) (now : ℕ)
      → has s.tclr tclr_st ≡ true
      → ((schedule muldiv64 s now).tcrr_base ≡ current muldiv64 s now)
        × ((schedule muldiv64 s now).last_ns ≡ now)
  unfolding schedule
  schedule_running s now e = ground arith

  schedule_stopped :
      (s : Timer) (now : ℕ)
      → has s.tclr tclr_st ≡ false
      → schedule muldiv64 s now ≡ record s { timer = none }
  unfolding schedule
  schedule_stopped s now e = rw e

  -- Rescheduling at `now` does not change what the guest reads at `now`.
  current-schedule :
      (s : Timer) (now : ℕ)
      → ((b c : ℕ) → muldiv64 0 b c ≡ 0)
      → IsWords s
      → current muldiv64 (schedule muldiv64 s now) now ≡ current muldiv64 s now
  current-schedule s now m v = elim (Bool-cases (has s.tclr tclr_st)) [
    | inl e ↦
        let (b, l) = schedule_running s now e in
        current_at_base (schedule muldiv64 s now) now m l (rw b (current-lt s now v)) ∙ b
    | inr e ↦ rw (schedule_stopped s now e) (unfold current elapsed rate reload in refl)
  ]

  -- The callback leaves the base at the counter that the guest reads at that time.
  pub commit_base :
      (s : Timer) (now : ℕ)
      → has s.tclr tclr_st ≡ true
      → ((commit muldiv64 s now).tcrr_base ≡ current muldiv64 s now)
        × ((commit muldiv64 s now).last_ns ≡ now)
        × ((commit muldiv64 s now).tldr ≡ s.tldr)
  unfolding commit current
  commit_base s now e = ground arith

  -- The callback is invisible in the counter: what the guest reads at the time of the callback is
  -- the same before and after it, whether the counter ran on, was reloaded or stopped at the top.
  pub current-tick :
      (s : Timer) (now : ℕ)
      → ((b c : ℕ) → muldiv64 0 b c ≡ 0)
      → IsWords s
      → has s.tclr tclr_st ≡ true
      → current muldiv64 (tick muldiv64 s now now) now ≡ current muldiv64 s now
  unfolding tick update_irq
  current-tick s now m v e =
      let c = update_irq (commit muldiv64 s now) in
      let (b, l, t) = commit_base s now e in
      let h : c.tcrr_base < 2 ^ 32 = rw b (current-lt s now v) in
      current-schedule c now m (record { base = h; load = rw t v.load })
      ∙ current_at_base c now m l h
      ∙ b
