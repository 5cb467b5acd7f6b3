-- ===== src/Gl/Render/Serve.antt =====
-- Safety of the hand-over to the render thread, qemu/hw/arm/garmin_gl.c.
use garmin_gpsmap_emu.Prelude.{
  arith, ◌≡◌, refl, sym, ◌∙◌, ap, Bool, true, false, not, ◌&&◌, if◌then◌else◌,
}
use garmin_gpsmap_emu.Prelude.{Option, List, [], ◌∷◌, ◌++◌}
use mathlib.Core.List.{append-nil}
use garmin_gpsmap_emu.Gl.Render.{Caller, Renderer, Sync, Step, Spurious, Reach}
use garmin_gpsmap_emu.Gl.Render.{start_testing, start_waiting, start_waking, outside, holding}
use garmin_gpsmap_emu.Gl.Render.{call_testing, call_waiting, call_waking}
use garmin_gpsmap_emu.Gl.Render.{starting, testing, waiting, waking, sync, initial, current}
use garmin_gpsmap_emu.Gl.Render.{signal_done, signal_req, caller_holds, renderer_holds}
use garmin_gpsmap_emu.Gl.Render.{start_wait, start_lock, start_done, lock, unlock, call}
use garmin_gpsmap_emu.Gl.Render.{call_wait, call_lock, call_done}
use garmin_gpsmap_emu.Gl.Render.{thread_start, thread_wait, thread_lock, thread_exec}
use garmin_gpsmap_emu.Gl.Render.{wake_caller, wake_renderer, here, next, woken}

-- What the vCPU's place says of `r_pending` and `r_started`.
abbrev pub caller_ok : Caller → Bool → Bool → Bool
caller_ok start_testing p st = not p
caller_ok start_waiting p st = not p && not st
caller_ok start_waking p st = not p
caller_ok outside p st = not p && st
caller_ok holding p st = not p && st
caller_ok call_testing p st = st
caller_ok call_waiting p st = p && st
caller_ok call_waking p st = st

-- What the render thread's place says of them.
abbrev pub renderer_ok : Renderer → Bool → Bool → Bool
renderer_ok starting p st = not st
renderer_ok testing p st = st
renderer_ok waiting p st = not p && st
renderer_ok waking p st = st

-- Not both hold the lock, and a request that waits is the one that is missing.
unfoldable pub IsConsistent : {R : Type 0} → Sync R → Type 0
IsConsistent (sync c r p st ok q ls es) =
    (caller_holds c && renderer_holds r ≡ false)
    × (caller_ok c p st ≡ true)
    × (renderer_ok r p st ≡ true)
    × (es ++ (if p && ok then current q else []) ≡ (if ok then ls else []))
    × ((if st then [] else ls) ≡ [])

caller_holds-signal_done : (w : Caller) → caller_holds (signal_done w) ≡ caller_holds w
unfolding caller_holds signal_done
caller_holds-signal_done start_testing = refl
caller_holds-signal_done start_waiting = refl
caller_holds-signal_done start_waking = refl
caller_holds-signal_done outside = refl
caller_holds-signal_done holding = refl
caller_holds-signal_done call_testing = refl
caller_holds-signal_done call_waiting = refl
caller_holds-signal_done call_waking = refl

renderer_holds-signal_req : (r : Renderer) → renderer_holds (signal_req r) ≡ renderer_holds r
unfolding renderer_holds signal_req
renderer_holds-signal_req starting = refl
renderer_holds-signal_req testing = refl
renderer_holds-signal_req waiting = refl
renderer_holds-signal_req waking = refl

still_free_done :
    (w : Caller) (b : Bool)
    → caller_holds w && b ≡ false
    → caller_holds (signal_done w) && b ≡ false
still_free_done w b m = rw (caller_holds-signal_done w) m

started_free : (w : Caller) → caller_holds w ≡ false → caller_holds (signal_done w) && true ≡ false
started_free w free = rw (caller_holds-signal_done w, free) refl

still_free_req :
    (r : Renderer) (b : Bool)
    → b && renderer_holds r ≡ false
    → b && renderer_holds (signal_req r) ≡ false
still_free_req r b m = rw (renderer_holds-signal_req r) m

-- Whoever is signalled when a request is answered finds what its place promises.
caller_ok-answered : (w : Caller) → caller_ok (signal_done w) false true ≡ true
unfolding signal_done
caller_ok-answered start_testing = refl
caller_ok-answered start_waiting = refl
caller_ok-answered start_waking = refl
caller_ok-answered outside = refl
caller_ok-answered holding = refl
caller_ok-answered call_testing = refl
caller_ok-answered call_waiting = refl
caller_ok-answered call_waking = refl

caller_ok-signal_done :
    (w : Caller) (p st : Bool) → caller_ok w p st ≡ true → caller_ok (signal_done w) p st ≡ true
unfolding signal_done
caller_ok-signal_done start_testing p st c = c
caller_ok-signal_done start_waiting p st c = ground arith
caller_ok-signal_done start_waking p st c = c
caller_ok-signal_done outside p st c = c
caller_ok-signal_done holding p st c = c
caller_ok-signal_done call_testing p st c = c
caller_ok-signal_done call_waiting p st c = ground arith
caller_ok-signal_done call_waking p st c = c

-- Nothing is asked before the render thread is there.
idle_before_start : (w : Caller) (p : Bool) → caller_ok w p false ≡ true → p ≡ false
idle_before_start start_testing p c = ground arith
idle_before_start start_waiting p c = ground arith
idle_before_start start_waking p c = ground arith
idle_before_start outside p c = ground arith
idle_before_start holding p c = ground arith
idle_before_start call_testing p c = ground arith
idle_before_start call_waiting p c = ground arith
idle_before_start call_waking p c = ground arith

renderer_ok-signal_req :
    (r : Renderer) (p st : Bool)
    → renderer_ok r p st ≡ true
    → st ≡ true
    → renderer_ok (signal_req r) true st ≡ true
unfolding signal_req
renderer_ok-signal_req starting p st d e = ground arith
renderer_ok-signal_req testing p st d e = e
renderer_ok-signal_req waiting p st d e = e
renderer_ok-signal_req waking p st d e = e

renderer_ok-woken :
    (r : Renderer) (p st : Bool)
    → renderer_ok r p st ≡ true
    → renderer_ok (signal_req r) p st ≡ true
unfolding signal_req
renderer_ok-woken starting p st d = d
renderer_ok-woken testing p st d = d
renderer_ok-woken waiting p st d = ground arith
renderer_ok-woken waking p st d = d

no_and : (b : Bool) → b && false ≡ false
no_and true = refl
no_and false = refl

empty_if {ℓ} : {A : Type ℓ} {ls : List A} (b : Bool) → ls ≡ [] → (if b then ls else []) ≡ []
empty_if true e = e
empty_if false e = refl

pub Step-IsConsistent :
    {R : Type 0} {init : Bool} {s t : Sync R} → Step init s t → IsConsistent s → IsConsistent t
unfolding IsConsistent caller_holds renderer_holds current
Step-IsConsistent (start_wait {p = p}) (m, c, r, e, z) = (refl, ground arith, r, e, z)
Step-IsConsistent (start_lock free) (m, c, d, e, z) = (free, c, d, e, z)
Step-IsConsistent (start_done {p = p}) (m, c, d, e, z) = (refl, ground arith, d, e, z)
Step-IsConsistent (lock free) (m, c, d, e, z) = (free, c, d, e, z)
Step-IsConsistent unlock (m, c, d, e, z) = (refl, c, d, e, z)
Step-IsConsistent (call {r = r} {p = false} {st = true} {ok = true} {ls = ls} {es = es} n)
      (m, c, d, e, z) =
    (
      still_free_req r true m,
      refl,
      renderer_ok-signal_req r false true d refl,
      ap (λ h. h ++ (n ∷ [])) (sym (append-nil es) ∙ e),
      refl,
    )
Step-IsConsistent (call {r = r} {p = false} {st = true} {ok = false} {ls = ls} {es = es} n)
      (m, c, d, e, z) =
    (still_free_req r true m, refl, renderer_ok-signal_req r false true d refl, e, refl)
Step-IsConsistent (call {p = true} n) (m, c, d, e, z) = ground arith
Step-IsConsistent (call {p = false} {st = false} n) (m, c, d, e, z) = ground arith
Step-IsConsistent call_wait (m, c, d, e, z) = (refl, c, d, e, z)
Step-IsConsistent (call_lock free) (m, c, d, e, z) = (free, c, d, e, z)
Step-IsConsistent call_done (m, c, d, e, z) = (m, c, d, e, z)
Step-IsConsistent {init = init} (thread_start {c = w} {p = false} {st = false} {ok = ok} free)
      (m, c, d, e, z) =
    (
      started_free w free,
      caller_ok-answered w,
      refl,
      e ∙ empty_if ok z ∙ sym (empty_if init z),
      refl,
    )
Step-IsConsistent (thread_start {c = w} {p = true} {st = false} free) (m, c, d, e, z) =
    let never = idle_before_start w true c in ground arith
Step-IsConsistent (thread_start {st = true} free) (m, c, d, e, z) = ground arith
Step-IsConsistent (thread_wait {c = w}) (m, c, d, e, z) = (no_and (caller_holds w), c, d, e, z)
Step-IsConsistent (thread_lock {c = w} free) (m, c, d, e, z) = (rw free refl, c, d, e, z)
Step-IsConsistent (thread_exec {c = w} {st = true} {ok = ok}) (m, c, d, e, z) =
    (still_free_done w _ m, caller_ok-answered w, d, append-nil _ ∙ e, z)
Step-IsConsistent (thread_exec {c = w} {st = false} {ok = ok}) (m, c, d, e, z) = ground arith

Spurious-IsConsistent : {R : Type 0} {s t : Sync R} → Spurious s t → IsConsistent s → IsConsistent t
unfolding IsConsistent
Spurious-IsConsistent (wake_caller {c = w} {p = p} {st = st}) (m, c, d, e, z) =
    (still_free_done w _ m, caller_ok-signal_done w p st c, d, e, z)
Spurious-IsConsistent (wake_renderer {c = w} {r = r} {p = p} {st = st}) (m, c, d, e, z) =
    (still_free_req r _ m, c, renderer_ok-woken r p st d, e, z)

pub Reach-IsConsistent :
    {R : Type 0} {init : Bool} {s : Sync R} → Reach init initial s → IsConsistent s
unfolding IsConsistent initial caller_holds renderer_holds
Reach-IsConsistent here = (refl, refl, refl, refl, refl)
Reach-IsConsistent (next r x) = Step-IsConsistent x (Reach-IsConsistent r)
Reach-IsConsistent (woken r x) = Spurious-IsConsistent x (Reach-IsConsistent r)

idle_at_dispatch : (p st : Bool) → caller_ok holding p st ≡ true → p ≡ false
idle_at_dispatch p st w = ground arith

IsConsistent-served :
    {R : Type 0} (r : Renderer) (p st ok : Bool) (q : Option R) (ls es : List R)
    → IsConsistent (sync holding r p st ok q ls es)
    → es ≡ (if ok then ls else [])
unfolding IsConsistent
IsConsistent-served r p st ok q ls es (m, w, d, e, z) =
    let idle = idle_at_dispatch p st w in
    sym (append-nil es) ∙ sym (ap (λ b. es ++ (if b && ok then current q else [])) idle) ∙ e

-- From the start on, however the two threads take turns and whatever sleeper wakes by itself: when
-- the vCPU is in `gl_dispatch` with the lock, so that each `render_call_req` before has returned, the
-- requests that `render_exec` ran are the requests asked for, each once and in order; without a host
-- renderer it ran none.
pub returned_served :
    {R : Type 0} {init : Bool} (r : Renderer) (p st ok : Bool) (q : Option R) (ls es : List R)
    → Reach init initial (sync holding r p st ok q ls es)
    → es ≡ (if ok then ls else [])
returned_served r p st ok q ls es path =
    IsConsistent-served r p st ok q ls es (Reach-IsConsistent path)
