-- ===== src/GpTimer/Resync.antt =====
-- The resync of the base in `gpt_schedule` of qemu/hw/arm/garmin_gpsmap.c, and rounding.
use garmin_gpsmap_emu.Prelude.{ℕ, zero, suc, ◌+◌, ◌-◌, ◌*◌, ◌/◌, ◌^◌, ◌≤◌, ◌<◌}
use garmin_gpsmap_emu.Prelude.{u64, has}
use garmin_gpsmap_emu.Prelude.{◌≡◌, refl, ap, ◌∙◌, ◌⊎◌, inl, inr, arith}
use garmin_gpsmap_emu.Prelude.{true, false}
use garmin_gpsmap_emu.Prelude.{Option, none, some, Bool-cases}
use garmin_gpsmap_emu.GpTimer.{
  Timer, tclr_st, tclr_ce, rate, update_irq, elapsed, current, next_event, schedule, commit, tick,
  nanoseconds_per_second,
}

abbrev pub IsMulDiv : (ℕ → ℕ → ℕ → ℕ) → Type 0
IsMulDiv f = (a b c : ℕ) → f a b c ≡ a * b / c

-- floor (x / c) + floor (y / c) falls short of floor ((x + y) / c) by at most one.
div_split :
    (x y : ℕ)
    → (x / nanoseconds_per_second + y / nanoseconds_per_second ≤ (x + y) / nanoseconds_per_second)
      × ((x + y) / nanoseconds_per_second
          ≤ x / nanoseconds_per_second + y / nanoseconds_per_second + 1)
div_split x y = omega arith

split : (l t u r : ℕ) → l ≤ t → t ≤ u → (u - l) * r ≡ (t - l) * r + (u - t) * r
split l t u r p q = let e : u - l ≡ (t - l) + (u - t) = omega arith in rw e (omega arith)

module _ (muldiv64 : ℕ → ℕ → ℕ → ℕ) where
  current_running :
      (s : Timer) (now : ℕ)
      → IsMulDiv muldiv64
      → has s.tclr tclr_st ≡ true
      → s.last_ns ≤ now
      → now < 2 ^ 63
      → s.tcrr_base + (now - s.last_ns) * rate s / nanoseconds_per_second < 2 ^ 32
      → current muldiv64 s now ≡ s.tcrr_base + (now - s.last_ns) * rate s / nanoseconds_per_second
  unfolding current elapsed
  current_running s now m e h1 h2 h3 =
      let z : u64 (now + 2 ^ 64 - s.last_ns) ≡ now - s.last_ns = omega arith in
      rw z (rw (m (now - s.last_ns) (rate s) nanoseconds_per_second) (ground arith))

  rate-schedule : (s : Timer) (now : ℕ) → rate (schedule muldiv64 s now) ≡ rate s
  unfolding schedule rate
  rate-schedule s now = elim (Bool-cases (has s.tclr tclr_st)) [ inl e ↦ rw e | inr e ↦ rw e ]

  schedule_at :
      (s : Timer) (now : ℕ)
      → has s.tclr tclr_st ≡ true
      → ((schedule muldiv64 s now).tcrr_base ≡ current muldiv64 s now)
        × ((schedule muldiv64 s now).last_ns ≡ now)
        × ((schedule muldiv64 s now).tclr ≡ s.tclr)
  unfolding schedule
  schedule_at s now e = ground arith

  -- Where the counter does not overflow up to time `u`, a resync at an earlier time `t` makes it
  -- read at `u` at most what it would read without, and at most one tick less.
  pub resync_lag :
      (s : Timer) (t u : ℕ)
      → IsMulDiv muldiv64
      → has s.tclr tclr_st ≡ true
      → s.last_ns ≤ t
      → t ≤ u
      → u < 2 ^ 63
      → s.tcrr_base + (u - s.last_ns) * rate s / nanoseconds_per_second < 2 ^ 32
      → (current muldiv64 (schedule muldiv64 s t) u ≤ current muldiv64 s u)
        × (current muldiv64 s u ≤ current muldiv64 (schedule muldiv64 s t) u + 1)
  unfolding rate
  resync_lag s t u m e h1 h2 h3 h4 =
      let r = schedule muldiv64 s t in
      let (b, l, c) = schedule_at s t e in
      let k = rate-schedule s t in
      let x = (t - s.last_ns) * rate s in
      let y = (u - t) * rate s in
      let sum : (u - s.last_ns) * rate s ≡ x + y = split s.last_ns t u (rate s) h1 h2 in
      let d = div_split x y in
      let at_t = current_running s t m e h1 (omega arith) (omega arith) in
      let at_u = current_running s u m e (omega arith) h3 h4 in
      let moved : (u - r.last_ns) * rate r ≡ y = rw (l, k) refl in
      let small : r.tcrr_base + (u - r.last_ns) * rate r / nanoseconds_per_second < 2 ^ 32 =
        rw moved (omega arith) in
      let at_r = current_running r u m (rw c e) (omega arith) h3 small in
      let shown : current muldiv64 r u ≡ r.tcrr_base + y / nanoseconds_per_second =
        at_r ∙ ap (λ (z : ℕ). r.tcrr_base + z / nanoseconds_per_second) moved in
      (omega arith, omega arith)

  -- The callback run exactly at the deadline that the timer was set to.
  unfoldable pub at_deadline : Timer → Option ℕ → Timer
  at_deadline s none = s
  at_deadline s (some d) = tick muldiv64 s d d

  unfoldable pub on_time : Timer → Timer
  on_time s = at_deadline s s.timer

  unfoldable pub on_time_times : ℕ → Timer → Timer
  on_time_times zero s = s
  on_time_times (suc n) s = on_time_times n (on_time s)

  -- Running without compare at the 38.4 MHz of the board's timers, on the last tick.
  pub record IsTop (s : Timer) : Type 0 where
    pub running : has s.tclr tclr_st ≡ true
    pub no_compare : has s.tclr tclr_ce ≡ false
    pub speed : rate s ≡ 38400000
    pub base : s.tcrr_base ≡ 0xffffffff

  -- The same with the deadline that `gpt_schedule` works out for it.
  pub record IsLastTick (s : Timer) : Type 0 where
    pub top : IsTop s
    pub armed : s.timer ≡ some (s.last_ns + 26)

  last_tick_ticks :
      (s : Timer) (now : ℕ)
      → IsMulDiv muldiv64
      → rate s ≡ 38400000
      → s.tcrr_base ≡ 0xffffffff
      → (now ≡ s.last_ns) ⊎ (now ≡ s.last_ns + 26)
      → elapsed muldiv64 s now ≡ 0xffffffff
  unfolding elapsed
  last_tick_ticks s now m v b h =
      let z : u64 (now + 2 ^ 64 - s.last_ns) ≤ 26 = omega arith in
      rw (v, m (u64 (now + 2 ^ 64 - s.last_ns)) 38400000 nanoseconds_per_second) (omega arith)

  commit_last_tick :
      (s : Timer) (d : ℕ)
      → IsMulDiv muldiv64
      → IsTop s
      → d ≡ s.last_ns + 26
      → commit muldiv64 s d ≡ record s { tcrr_base = 0xffffffff; last_ns = d }
  unfolding commit
  commit_last_tick s d m v e = rw (last_tick_ticks s d m v.speed v.base (inr e), v.no_compare) refl

  schedule_last_tick :
      (s : Timer)
      → IsMulDiv muldiv64
      → IsTop s
      → schedule muldiv64 s s.last_ns
        ≡ record s { tcrr_base = 0xffffffff; timer = some (s.last_ns + 26) }
  unfolding schedule current next_event
  schedule_last_tick s m v =
      rw
        (
          v.running,
          last_tick_ticks s s.last_ns m v.speed v.base (inl refl),
          v.no_compare,
          v.speed,
          m 1 nanoseconds_per_second 38400000,
        )
        refl

  on_time-IsLastTick :
      (s : Timer)
      → IsMulDiv muldiv64
      → IsLastTick s
      → IsLastTick (on_time s) × ((on_time s).irqstatus ≡ s.irqstatus)
  unfolding on_time at_deadline tick update_irq rate
  on_time-IsLastTick s m v =
      let d = s.last_ns + 26 in
      let t = update_irq (record s { tcrr_base = 0xffffffff; last_ns = d }) in
      let top : IsTop t = record {
        running = v.top.running;
        no_compare = v.top.no_compare;
        speed = v.top.speed;
        base = refl;
      } in
      let e : on_time s ≡ record t { tcrr_base = 0xffffffff; timer = some (d + 26) } =
        ap (at_deadline s) v.armed
        ∙ ap (λ (c : Timer). schedule muldiv64 (update_irq c) d) (commit_last_tick s d m v.top refl)
        ∙ schedule_last_tick t m top in
      rw e (
        record {
          top = record {
            running = v.top.running;
            no_compare = v.top.no_compare;
            speed = v.top.speed;
            base = refl;
          };
          armed = refl;
        },
        refl,
      )

  -- A timer without compare at 38.4 MHz that stands on its last tick, with the deadline of 26 ns that
  -- `gpt_schedule` works out there, stands there with that deadline after any number of callbacks, each
  -- run exactly at its deadline, and raises nothing: the last tick lasts 26.04 ns, and each callback
  -- drops the rest.
  pub last_tick_repeats :
      (s : Timer) (n : ℕ)
      → IsMulDiv muldiv64
      → IsLastTick s
      → ((on_time_times n s).irqstatus ≡ s.irqstatus)
        × ((on_time_times n s).tcrr_base ≡ 0xffffffff)
        × ((on_time_times n s).timer ≡ some ((on_time_times n s).last_ns + 26))
  unfolding on_time_times
  last_tick_repeats s zero m v = (refl, v.top.base, v.armed)
  last_tick_repeats s (suc n) m v =
      let (w, k) = on_time-IsLastTick s m v in
      let (a, b, c) = last_tick_repeats (on_time s) n m w in (a ∙ k, b, c)
