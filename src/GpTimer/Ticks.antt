-- ===== src/GpTimer/Ticks.antt =====
-- The counter of the GP timer in qemu/hw/arm/garmin_gpsmap.c, worked out from the elapsed time, against
-- a counter that goes up by one at every tick.
use garmin_gpsmap_emu.Prelude.{ℕ, zero, suc, ◌+◌, ◌-◌, ◌%◌, ◌^◌, ◌≤◌, ◌<◌}
use garmin_gpsmap_emu.Prelude.{bit_or, u64, has}
use garmin_gpsmap_emu.Prelude.{◌≡◌, sym, ap, ◌∙◌, inl, inr, arith}
use garmin_gpsmap_emu.Prelude.{
  Bool, true, false, ◌&&◌, ◌||◌, if◌then◌else◌, ◌==◌, ltb, leb, Bool-cases,
}
use native.Mathlib.Nat.{mod-lt, mod-eq_of_lt, mod_self, suc-mod}
use garmin_gpsmap_emu.Prelude.Bits.{bit, bit_le, bit-or, bit-two_pow}
use garmin_gpsmap_emu.GpTimer.{Timer, tclr_st, tclr_ar, tclr_ce, elapsed, reload, current, commit}
use garmin_gpsmap_emu.GpTimer.{irq_mat, irq_ovf, rate, nanoseconds_per_second}
use garmin_gpsmap_emu.GpTimer.Count.{IsWords, commit_base}

-- One tick: from the top to TLDR with automatic reload, else the counter stops there.
unfoldable pub one_tick : Timer → ℕ → ℕ
one_tick s c =
    if c == 0xffffffff then (if has s.tclr tclr_ar then s.tldr else 0xffffffff) else suc c

-- The counter `n` ticks after its base.
unfoldable pub ticks : Timer → ℕ → ℕ
ticks s zero = s.tcrr_base
ticks s (suc n) = one_tick s (ticks s n)

-- Whether one of the first `n` ticks left the top.
unfoldable pub passed_top : Timer → ℕ → Bool
passed_top s zero = false
passed_top s (suc n) = passed_top s n || ticks s n == 0xffffffff

-- The counter for `v` ticks since 0 with no wrap.
abbrev folded : Timer → ℕ → ℕ
folded s v =
    if leb v 0xffffffff
    then v
    else if has s.tclr tclr_ar
    then s.tldr + (v - 0x100000000) % (0x100000000 - s.tldr)
    else 0xffffffff

-- A remainder goes up by one or back to 0.
suc_remainder : (x m : ℕ) → 0 < m → suc x % m ≡ (if suc (x % m) == m then 0 else suc (x % m))
suc_remainder x m h =
    let small = mod-lt x h in
    suc-mod x m ∙ elim (Bool-cases (suc (x % m) == m)) [
      | inl e ↦ let same : suc (x % m) ≡ m = ground arith in rw (e, same) (mod_self m)
      | inr e ↦ rw e (mod-eq_of_lt (ground arith))
    ]

folded-suc : (s : Timer) (v : ℕ) → s.tldr < 2 ^ 32 → folded s (suc v) ≡ one_tick s (folded s v)
unfolding one_tick
folded-suc s v h = elim (Bool-cases (ltb v 0xffffffff)) [
  | inl low ↦ ground arith
  | inr high ↦ elim (Bool-cases (v == 0xffffffff)) [
    | inl top ↦
        let e : v ≡ 0xffffffff = ground arith in
        let none_left : 0 % (0x100000000 - s.tldr) ≡ 0 = mod-eq_of_lt (omega arith) in
        rw (e, none_left) (ground arith)
    | inr past ↦
        let x = v - 0x100000000 in
        let m = 0x100000000 - s.tldr in
        let after : suc v - 0x100000000 ≡ suc x = ground arith in
        let split = suc_remainder x m (omega arith) in
        let small : x % m < m = mod-lt x (omega arith) in
        elim (Bool-cases (has s.tclr tclr_ar)) [
          | inl again ↦ rw (again, after, split) (ground arith)
          | inr stop ↦ rw stop (ground arith)
        ]
  ]
]

folded-ticks : (s : Timer) (n : ℕ) → IsWords s → folded s (s.tcrr_base + n) ≡ ticks s n
unfolding ticks
folded-ticks s zero w = let b = w.base in ground arith
folded-ticks s (suc n) w =
    ap (folded s) (let e : s.tcrr_base + suc n ≡ suc (s.tcrr_base + n) = omega arith in e)
    ∙ folded-suc s (s.tcrr_base + n) w.load
    ∙ ap (one_tick s) (folded-ticks s n w)

passed_top_lem : (s : Timer) (n : ℕ) → IsWords s → passed_top s n ≡ ltb 0xffffffff (s.tcrr_base + n)
unfolding passed_top
passed_top_lem s zero w = let b = w.base in ground arith
passed_top_lem s (suc n) w =
    let before = passed_top_lem s n w in
    let at = folded-ticks s n w in
    rw (before, sym at)
      (elim (Bool-cases (ltb 0xffffffff (s.tcrr_base + n))) [
        | inl past ↦ ground arith
        | inr low ↦ ground arith
      ])

-- Whether the counter has come to TMAR within `n` ticks.
unfoldable pub met : Timer → ℕ → Bool
met s zero = false
met s (suc n) = met s n || ticks s (suc n) == s.tmar

met_lem :
    (s : Timer) (n : ℕ)
    → IsWords s
    → s.tcrr_base < s.tmar
    → s.tmar < 2 ^ 32
    → met s n ≡ leb s.tmar (s.tcrr_base + n)
unfolding met
met_lem s zero w low small = ground arith
met_lem s (suc n) w low small =
    let before = met_lem s n w low small in
    let at = folded-ticks s (suc n) w in rw (before, sym at) (ground arith)

module _ (muldiv64 : ℕ → ℕ → ℕ → ℕ) where
  -- The whole ticks since `last_ns`.
  abbrev pub gone : Timer → ℕ → ℕ
  gone s now = muldiv64 (now - s.last_ns) (rate s) nanoseconds_per_second

  elapsed-gone :
      (s : Timer) (now : ℕ)
      → s.last_ns ≤ now
      → now < 2 ^ 63
      → s.tcrr_base + gone s now < 2 ^ 64
      → elapsed muldiv64 s now ≡ s.tcrr_base + gone s now
  unfolding elapsed
  elapsed-gone s now h1 h2 h3 =
      let z : u64 (now + 2 ^ 64 - s.last_ns) ≡ now - s.last_ns = omega arith in rw z (omega arith)

  current-folded :
      (s : Timer) (now : ℕ)
      → IsWords s
      → has s.tclr tclr_st ≡ true
      → current muldiv64 s now ≡ folded s (elapsed muldiv64 s now)
  unfolding current reload
  current-folded s now w on = let l = w.load in rw on (ground arith)

  commit-overflow :
      (s : Timer) (now : ℕ)
      → bit (commit muldiv64 s now).irqstatus 1
        ≡ (if ltb 0xffffffff (elapsed muldiv64 s now) then 1 else bit s.irqstatus 1)
  unfolding commit
  commit-overflow s now = ground (
    arith,
    bit-or s.irqstatus irq_mat 1,
    bit-or s.irqstatus irq_ovf 1,
    bit-or (bit_or s.irqstatus irq_mat) irq_ovf 1,
    bit-two_pow 0 1,
    bit-two_pow 1 1,
    bit_le s.irqstatus 1,
  )

  commit-match :
      (s : Timer) (now : ℕ)
      → s.tcrr_base < s.tmar
      → bit (commit muldiv64 s now).irqstatus 0 ≡ (
          if has s.tclr tclr_ce && leb s.tmar (elapsed muldiv64 s now)
          then 1
          else bit s.irqstatus 0)
  unfolding commit
  commit-match s now low = ground (
    arith,
    bit-or s.irqstatus irq_mat 0,
    bit-or s.irqstatus irq_ovf 0,
    bit-or (bit_or s.irqstatus irq_mat) irq_ovf 0,
    bit-two_pow 0 0,
    bit-two_pow 1 0,
    bit_le s.irqstatus 0,
  )

  -- While the timer runs, the counter that the guest reads, and the one that the callback leaves, are
  -- those of a counter that goes up by one at every whole tick since `last_ns` and at the top goes to
  -- TLDR with automatic reload and stops without; and the callback raises OVF exactly when such a tick
  -- has left the top; an OVF that is pending stays. The count of ticks has 64 digits and the clock does
  -- not run back.
  pub commit-ticks :
      (s : Timer) (now : ℕ)
      → IsWords s
      → has s.tclr tclr_st ≡ true
      → s.last_ns ≤ now
      → now < 2 ^ 63
      → s.tcrr_base + gone s now < 2 ^ 64
      → (current muldiv64 s now ≡ ticks s (gone s now))
        × ((commit muldiv64 s now).tcrr_base ≡ ticks s (gone s now))
        × (bit (commit muldiv64 s now).irqstatus 1
            ≡ (if passed_top s (gone s now) then 1 else bit s.irqstatus 1))
  commit-ticks s now w on h1 h2 h3 =
      let v = elapsed-gone s now h1 h2 h3 in
      let counted = folded-ticks s (gone s now) w in
      let shown = current-folded s now w on ∙ ap (folded s) v ∙ counted in
      (
        shown,
        (commit_base muldiv64 s now on).0 ∙ shown,
        commit-overflow s now
            ∙ ap (λ (x : ℕ). if ltb 0xffffffff x then 1 else bit s.irqstatus 1) v
            ∙ ap (λ (b : Bool). if b then 1 else bit s.irqstatus 1)
                (sym (passed_top_lem s (gone s now) w)),
      )

  -- With compare enabled, a timer that stood below TMAR raises MAT at the callback exactly when a counter
  -- that goes up by one at every tick has come to TMAR since `last_ns`, also when it has been reloaded
  -- meanwhile; without compare it raises none. A MAT that is pending stays.
  pub commit-met :
      (s : Timer) (now : ℕ)
      → IsWords s
      → s.tcrr_base < s.tmar
      → s.tmar < 2 ^ 32
      → s.last_ns ≤ now
      → now < 2 ^ 63
      → s.tcrr_base + gone s now < 2 ^ 64
      → bit (commit muldiv64 s now).irqstatus 0
        ≡ (if has s.tclr tclr_ce && met s (gone s now) then 1 else bit s.irqstatus 0)
  commit-met s now w low small h1 h2 h3 =
      let v = elapsed-gone s now h1 h2 h3 in
      commit-match s now low
      ∙ ap (λ (x : ℕ). if has s.tclr tclr_ce && leb s.tmar x then 1 else bit s.irqstatus 0) v
      ∙ ap (λ (b : Bool). if has s.tclr tclr_ce && b then 1 else bit s.irqstatus 0)
          (sym (met_lem s (gone s now) w low small))
