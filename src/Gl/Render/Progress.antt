-- ===== src/Gl/Render/Progress.antt =====
-- Progress of the hand-over to the render thread, qemu/hw/arm/garmin_gl.c: no wake-up is lost.
use garmin_gpsmap_emu.Prelude.{arith, ℕ, zero, suc, ◌+◌, ◌<◌, ◌≤◌, ◌≡◌, refl, ◌⊎◌, inl, inr}
use garmin_gpsmap_emu.Prelude.{Bool, true, false, if◌then◌else◌}
use garmin_gpsmap_emu.Gl.Render.{Caller, Renderer, Sync, Step, Reach}
use garmin_gpsmap_emu.Gl.Render.{start_testing, start_waiting, start_waking, outside, holding}
use garmin_gpsmap_emu.Gl.Render.{call_testing, call_waiting, call_waking}
use garmin_gpsmap_emu.Gl.Render.{starting, testing, waiting, waking, sync, initial}
use garmin_gpsmap_emu.Gl.Render.{signal_done, caller_holds, renderer_holds}
use garmin_gpsmap_emu.Gl.Render.{start_wait, start_lock, start_done, lock, unlock, call}
use garmin_gpsmap_emu.Gl.Render.{call_wait, call_lock, call_done}
use garmin_gpsmap_emu.Gl.Render.{thread_start, thread_wait, thread_lock, thread_exec}
use garmin_gpsmap_emu.Gl.Render.Serve.{IsConsistent, Step-IsConsistent, Reach-IsConsistent}

-- The vCPU is in the loop of `render_call_req`.
abbrev pub in_call : Caller → Bool
in_call call_testing = true
in_call call_waiting = true
in_call call_waking = true
in_call other = false

abbrev pub place : {R : Type 0} → Sync R → Caller
place (sync c r p st ok q ls es) = c

-- Every schedule comes to the return of `render_call_req`: it has returned, or there is a step to
-- take and every step leads to such a state.
pub data Returns {R : Type 0} (init : Bool) : Sync R → Type 0 where
  returned : {s : Sync R} → place s ≡ holding → Returns init s
  later :
      {s : Sync R} (t : Sync R)
      → Step init s t
      → ((u : Sync R) → Step init s u → Returns init u)
      → Returns init s

abbrev caller_rank : Caller → ℕ
caller_rank call_testing = 1
caller_rank call_waking = 2
caller_rank start_waking = 2
caller_rank other = 0

abbrev renderer_rank : Renderer → ℕ
renderer_rank starting = 9
renderer_rank testing = 1
renderer_rank waiting = 0
renderer_rank waking = 2

abbrev rank : {R : Type 0} → Sync R → ℕ
rank (sync c r p st ok q ls es) = (if p then 8 else 0) + caller_rank c + renderer_rank r

signal_done-rank : (c : Caller) → caller_rank (signal_done c) ≤ caller_rank c + 2
unfolding signal_done
signal_done-rank start_testing = omega arith
signal_done-rank start_waiting = omega arith
signal_done-rank start_waking = omega arith
signal_done-rank outside = omega arith
signal_done-rank holding = omega arith
signal_done-rank call_testing = omega arith
signal_done-rank call_waiting = omega arith
signal_done-rank call_waking = omega arith

signal_done-in_call : (c : Caller) → in_call c ≡ true → in_call (signal_done c) ≡ true
unfolding signal_done
signal_done-in_call start_testing e = e
signal_done-in_call start_waiting e = ground arith
signal_done-in_call start_waking e = e
signal_done-in_call outside e = e
signal_done-in_call holding e = e
signal_done-in_call call_testing e = e
signal_done-in_call call_waiting e = refl
signal_done-in_call call_waking e = e

-- A step of a call ends it or brings the end nearer.
Step-nearer :
    {R : Type 0} {init : Bool} {s t : Sync R}
    → Step init s t
    → in_call (place s) ≡ true
    → (place t ≡ holding) ⊎ ((in_call (place t) ≡ true) × (rank t < rank s))
Step-nearer start_wait e = ground arith
Step-nearer (start_lock free) e = ground arith
Step-nearer start_done e = ground arith
Step-nearer (lock free) e = ground arith
Step-nearer unlock e = ground arith
Step-nearer (call n) e = ground arith
Step-nearer call_wait e = inr (refl, omega arith)
Step-nearer (call_lock {p = p} free) e = inr (refl, omega arith)
Step-nearer call_done e = inl refl
Step-nearer (thread_start {c = c} {p = p} free) e =
    let near = signal_done-rank c in inr (signal_done-in_call c e, omega arith)
Step-nearer thread_wait e = inr (e, omega arith)
Step-nearer (thread_lock free) e = inr (e, omega arith)
Step-nearer (thread_exec {c = c}) e =
    let near = signal_done-rank c in inr (signal_done-in_call c e, omega arith)

-- No wake-up is lost, so that some thread can go on.
step_of_call :
    {R : Type 0} {init : Bool} (s : Sync R)
    → IsConsistent s
    → in_call (place s) ≡ true
    → (t : Sync R) × Step init s t
unfolding IsConsistent caller_holds renderer_holds
step_of_call (sync call_testing r true st ok q ls es) h e = (_, call_wait)
step_of_call (sync call_testing r false st ok q ls es) h e = (_, call_done)
step_of_call (sync call_waking testing true st ok q ls es) h e = (_, thread_exec)
step_of_call (sync call_waking testing false st ok q ls es) h e = (_, thread_wait)
step_of_call (sync call_waking starting p st ok q ls es) h e = (_, call_lock refl)
step_of_call (sync call_waking waiting p st ok q ls es) h e = (_, call_lock refl)
step_of_call (sync call_waking waking p st ok q ls es) h e = (_, call_lock refl)
step_of_call (sync call_waiting testing true st ok q ls es) h e = (_, thread_exec)
step_of_call (sync call_waiting waking true st ok q ls es) h e = (_, thread_lock refl)
step_of_call (sync call_waiting waiting true st ok q ls es) (m, w, d, h, z) e = ground arith
step_of_call (sync call_waiting starting true st ok q ls es) (m, w, d, h, z) e = ground arith
step_of_call (sync call_waiting r false st ok q ls es) (m, w, d, h, z) e = ground arith
step_of_call (sync start_testing r p st ok q ls es) h e = ground arith
step_of_call (sync start_waiting r p st ok q ls es) h e = ground arith
step_of_call (sync start_waking r p st ok q ls es) h e = ground arith
step_of_call (sync outside r p st ok q ls es) h e = ground arith
step_of_call (sync holding r p st ok q ls es) h e = ground arith

returns_within :
    {R : Type 0} {init : Bool} (n : ℕ) (s : Sync R)
    → rank s < n
    → IsConsistent s
    → in_call (place s) ≡ true
    → Returns init s
returns_within zero s near h e = ground arith
returns_within (suc n) s near h e =
    let (t, x) = step_of_call s h e in
    later t x (λ u y. elim (Step-nearer y e) [
      | inl done ↦ returned done
      | inr (inside, less) ↦ returns_within n u (omega arith) (Step-IsConsistent y h) inside
    ])

-- In every state from the start on in which the vCPU is in the loop of `render_call_req`, some thread
-- can take a step, and whatever steps the two threads take without a sleeper that wakes by itself,
-- after finitely many `render_call_req` has returned.
pub call_returns :
    {R : Type 0} {init : Bool} (s : Sync R)
    → Reach init initial s
    → in_call (place s) ≡ true
    → Returns init s
call_returns s path e = returns_within (suc (rank s)) s (omega arith) (Reach-IsConsistent path) e
