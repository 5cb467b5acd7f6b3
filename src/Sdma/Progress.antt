-- ===== src/Sdma/Progress.antt =====
-- The counts of the system DMA of qemu/hw/arm/garmin_gpsmap.c and its engine timer.
use garmin_gpsmap_emu.Prelude.{ℕ, zero, suc, ◌+◌, ◌-◌, ◌≤◌, ◌<◌, min}
use garmin_gpsmap_emu.Prelude.{u32, nonzero}
use garmin_gpsmap_emu.Prelude.{◌≡◌, refl, ap, ◌∙◌, ◌≢◌, arith}
use garmin_gpsmap_emu.Prelude.{Bool, true, false, not, ◌||◌, if◌then◌else◌, ◌==◌}
use garmin_gpsmap_emu.Prelude.{Option, some}
use garmin_gpsmap_emu.Prelude.{update}
use native.Mathlib.Decide.{ℕ_discrete}
use garmin_gpsmap_emu.Prelude.{if_elim}
use garmin_gpsmap_emu.Sdma.{
  MemOps, Chan, Sdma, nch, mmc_port, complete, update_irq, mmc_ready, move, copy, step, engine_from,
  sdma_engine,
}

update_self : {A : Type 0} (f : ℕ → A) (n : ℕ) (a : A) → update f n a n ≡ a
update_self f n a = ground arith

or_left : (a b : Bool) → a || b ≡ false → a ≡ false
or_left false b e = refl
or_left true b e = e

or_right : (a b : Bool) → a || b ≡ false → b ≡ false
or_right false b e = e
or_right true b e = absurd (ground arith)

update_ne : {A : Type 0} (f : ℕ → A) (n j : ℕ) (a : A) → j ≢ n → update f n a j ≡ f j
update_ne f n j a h = ground arith

module _ {M : Type 0} where
  complete_counts :
      (s : Sdma M) (n : ℕ)
      → (((complete s n).ch n).remaining ≡ (s.ch n).remaining)
        × (((complete s n).ch n).active ≡ false)
  unfolding complete update_irq
  complete_counts s n = ground arith

  complete_ne : (s : Sdma M) (n j : ℕ) → j ≢ n → (complete s n).ch j ≡ s.ch j
  unfolding complete update_irq
  complete_ne s n j h = ground arith

  finish_counts :
      (t : Sdma M) (n : ℕ) (d : Chan)
      → t.ch n ≡ d
      → d.active ≡ true
      → (((if d.remaining == 0 then complete t n else t).ch n).remaining ≡ d.remaining)
        × (((if d.remaining == 0 then complete t n else t).ch n).active
            ≡ nonzero ((if d.remaining == 0 then complete t n else t).ch n).remaining)
  finish_counts t n d e on =
      if_elim
        (λ (u : Sdma M).
          ((u.ch n).remaining ≡ d.remaining) × ((u.ch n).active ≡ nonzero (u.ch n).remaining))
        (d.remaining == 0)
        (λ z.
          let k = complete_counts t n in
          (k.0 ∙ ap (λ x. x.remaining) e, k.1 ∙ ground (arith, k.0, ap (λ x. x.remaining) e)))
        (λ z. (
          ap (λ x. x.remaining) e,
          ap (λ x. x.active) e ∙ on ∙ ground (arith, ap (λ x. x.remaining) e),
        ))

module _ {M : Type 0} (ops : MemOps M) (bases : ℕ → ℕ) where
  move_counts :
      (c : Chan) (m : M)
      → ((move ops bases c m).0.remaining ≡ c.remaining - 1)
        × ((move ops bases c m).0.active ≡ c.active)
  unfolding move
  move_counts c m = (refl, refl)

  copy_counts :
      (n : ℕ) (from to : Option ℕ) (c : Chan) (m : M)
      → n ≤ c.remaining
      → ((copy ops bases n from to c m).0.remaining + (copy ops bases n from to c m).2
          ≡ c.remaining)
        × ((copy ops bases n from to c m).2 ≤ n)
        × ((copy ops bases n from to c m).0.active ≡ c.active)
  unfolding copy
  copy_counts zero from to c m h = (omega arith, omega arith, refl)
  copy_counts (suc n) from to c m h =
      let (src_ready, a) = mmc_ready ops bases m from true in
      let (dst_ready, b) = mmc_ready ops bases a to false in
      let r = move ops bases c b in
      let k = move_counts c b in
      let v = copy_counts n from to r.0 r.1 (omega (arith, k.0)) in
      let P : Chan × M × ℕ → Type 0 =
        λ x. (x.0.remaining + x.2 ≡ c.remaining) × (x.2 ≤ suc n) × (x.0.active ≡ c.active) in
      if_elim P (c.remaining == 0) (λ _. (omega arith, omega arith, refl))
        (λ _.
          if_elim P (not src_ready) (λ _. (omega arith, omega arith, refl))
            (λ _.
              if_elim P (not dst_ready) (λ _. (omega arith, omega arith, refl))
                (λ _. (omega (arith, v.0, k.0), omega (arith, v.1), v.2 ∙ k.1))))

  -- A step moves at most what it is asked to; what it moved and what is left make what was left;
  -- and a channel that was active stays so exactly while elements are left.
  pub step_counts :
      (s : Sdma M) (n max_elems : ℕ)
      → (s.ch n).active ≡ true
      → ((step ops bases s n max_elems).0 ≤ max_elems)
        × (((step ops bases s n max_elems).1.ch n).remaining + (step ops bases s n max_elems).0
            ≡ (s.ch n).remaining)
        × (((step ops bases s n max_elems).1.ch n).active
            ≡ nonzero ((step ops bases s n max_elems).1.ch n).remaining)
  unfolding step
  step_counts s n max_elems on =
      let c = s.ch n in
      let r =
        copy ops bases (min c.remaining max_elems) (mmc_port bases c.src) (mmc_port bases c.dst) c
          s.mem in
      let v =
        copy_counts (min c.remaining max_elems) (mmc_port bases c.src) (mmc_port bases c.dst) c
          s.mem (omega arith) in
      let d : Chan = record r.0 { csac = u32 r.0.src; cdac = u32 r.0.dst } in
      let t : Sdma M = record s { mem = r.1; ch = update s.ch n d } in
      let w = finish_counts t n d (update_self s.ch n d) (v.2 ∙ on) in
      (omega (arith, v.1), omega (arith, w.0, v.0), w.1)

  step_ne :
      (s : Sdma M) (n j max_elems : ℕ) → j ≢ n → (step ops bases s n max_elems).1.ch j ≡ s.ch j
  unfolding step
  step_ne s n j max_elems h =
      let c = s.ch n in
      let r =
        copy ops bases (min c.remaining max_elems) (mmc_port bases c.src) (mmc_port bases c.dst) c
          s.mem in
      let d : Chan = record r.0 { csac = u32 r.0.src; cdac = u32 r.0.dst } in
      let t : Sdma M = record s { mem = r.1; ch = update s.ch n d } in
      let same = update_ne s.ch n j d h in
      if_elim (λ (u : Sdma M). u.ch j ≡ s.ch j) (d.remaining == 0) (λ _. complete_ne t n j h ∙ same)
        (λ _. same)

  -- From channel `n` on, the pass leaves the channels below it alone, and it reports a pending
  -- channel unless all those it covers are idle at the end.
  engine_from_quiet :
      (k n : ℕ) (s : Sdma M)
      → ((j : ℕ) → j < n → (engine_from ops bases k n s).1.ch j ≡ s.ch j)
        × ((engine_from ops bases k n s).0 ≡ false
            → (j : ℕ) → n ≤ j
            → j < n + k
            → ((engine_from ops bases k n s).1.ch j).active ≡ false)
  unfolding engine_from
  engine_from_quiet zero n s = (λ j h. refl, λ e j a b. absurd (omega arith))
  engine_from_quiet (suc k) n s =
      let t = if (s.ch n).active then (step ops bases s n 4096).1 else s in
      let v = engine_from_quiet k (n + 1) t in
      let same : (j : ℕ) → j ≢ n → t.ch j ≡ s.ch j = λ j h.
        if_elim (λ (u : Sdma M). u.ch j ≡ s.ch j) (s.ch n).active (λ _. step_ne s n j 4096 h)
          (λ _. refl) in
      (
        λ j h. v.0 j (omega arith) ∙ same j (omega arith),
        λ e j a b. elim (ℕ_discrete j n) [
          | yes z ↦
              ap (λ x. ((engine_from ops bases k (n + 1) t).1.ch x).active) z
              ∙ ap (λ x. x.active) (v.0 n (omega arith))
              ∙ or_left (t.ch n).active _ e
          | no z ↦ v.1 (or_right (t.ch n).active _ e) j (omega arith) (omega arith)
        ],
      )

  rearm_lem :
      (s t : Sdma M) (pending : Bool) (now j : ℕ)
      → (pending ≡ false → (t.ch j).active ≡ false)
      → ((if pending then record t { engine = some (now + 50000) } else t).ch j).active ≡ true
      → (if pending then record t { engine = some (now + 50000) } else t).engine
        ≡ some (now + 50000)
  rearm_lem s t true now j q on = refl
  rearm_lem s t false now j q on = absurd (ground (arith, q refl))

  -- When the engine callback leaves a channel active, its timer is set to fire again 50 us later.
  sdma_engine_rearms :
      (s : Sdma M) (now j : ℕ)
      → j < nch
      → ((sdma_engine ops bases s now).ch j).active ≡ true
      → (sdma_engine ops bases s now).engine ≡ some (now + 50000)
  unfolding sdma_engine
  sdma_engine_rearms s now j h on =
      let r = engine_from ops bases nch 0 s in
      rearm_lem s r.1 r.0 now j (λ e. (engine_from_quiet nch 0 s).1 e j (omega arith) h) on
