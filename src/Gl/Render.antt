-- ===== src/Gl/Render.antt =====
-- The render thread of qemu/hw/arm/garmin_gl.c and the way a vCPU hands it a request: one lock, two
-- condition variables and `r_pending`. A step is what a thread does with `rlock` between two tests
-- of its loop; of the vCPUs only one is in the trap at a time, since the emulator's own lock covers
-- the access. `rlock` is held by the thread whose place is inside it, so that no field stores it.
pub mod Serve
pub mod Progress
pub mod Flush
mod Tests
use garmin_gpsmap_emu.Prelude.{◌≡◌, Bool, true, false, if◌then◌else◌}
use garmin_gpsmap_emu.Prelude.{Option, none, some, List, [], ◌∷◌, ◌++◌}

-- Where the vCPU is: in the loop of `render_start`, outside, in `gl_dispatch` with the lock, or in
-- the loop of `render_call_req`. In `..._waiting` it sleeps, in `..._waking` it wants the lock back.
pub data Caller : Type 0 where
  start_testing : Caller
  start_waiting : Caller
  start_waking : Caller
  outside : Caller
  holding : Caller
  call_testing : Caller
  call_waiting : Caller
  call_waking : Caller

-- Where the render thread is: before its lock, or in its loop.
pub data Renderer : Type 0 where
  starting : Renderer
  testing : Renderer
  waiting : Renderer
  waking : Renderer

-- `qemu_cond_signal(&rcond_done)` and `qemu_cond_signal(&rcond_req)`: only a sleeper notices.
unfoldable pub signal_done : Caller → Caller
signal_done start_waiting = start_waking
signal_done call_waiting = call_waking
signal_done other = other

unfoldable pub signal_req : Renderer → Renderer
signal_req waiting = waking
signal_req other = other

unfoldable pub caller_holds : Caller → Bool
caller_holds start_testing = true
caller_holds holding = true
caller_holds call_testing = true
caller_holds other = false

unfoldable pub renderer_holds : Renderer → Bool
renderer_holds testing = true
renderer_holds other = false

-- `asked` lists the requests that were handed over and `executed` those that `render_exec` ran.
pub data Sync (R : Type 0) : Type 0 where
  sync :
      (caller : Caller) (renderer : Renderer) (r_pending r_started r_ok : Bool) (r_cur : Option R)
      (asked executed : List R)
      → Sync R

-- The request in `r_cur`.
unfoldable pub current : {R : Type 0} → Option R → List R
current none = []
current (some q) = q ∷ []

unfoldable pub initial : {R : Type 0} → Sync R
initial = sync start_testing starting false false false none [] []

-- A sleeper may wake without a signal.
pub data Spurious {R : Type 0} : Sync R → Sync R → Type 0 where
  wake_caller :
      {c : Caller} {r : Renderer} {p st ok : Bool} {q : Option R} {ls es : List R}
      → Spurious (sync c r p st ok q ls es) (sync (signal_done c) r p st ok q ls es)
  wake_renderer :
      {c : Caller} {r : Renderer} {p st ok : Bool} {q : Option R} {ls es : List R}
      → Spurious (sync c r p st ok q ls es) (sync c (signal_req r) p st ok q ls es)

module _ {R : Type 0} (render_init : Bool) where
  pub data Step : Sync R → Sync R → Type 0 where
    start_wait :
        {r : Renderer} {p ok : Bool} {q : Option R} {ls es : List R}
        → Step (sync start_testing r p false ok q ls es) (sync start_waiting r p false ok q ls es)
    start_lock :
        {r : Renderer} {p st ok : Bool} {q : Option R} {ls es : List R}
        → renderer_holds r ≡ false
        → Step (sync start_waking r p st ok q ls es) (sync start_testing r p st ok q ls es)
    start_done :
        {r : Renderer} {p ok : Bool} {q : Option R} {ls es : List R}
        → Step (sync start_testing r p true ok q ls es) (sync outside r p true ok q ls es)
    lock :
        {r : Renderer} {p st ok : Bool} {q : Option R} {ls es : List R}
        → renderer_holds r ≡ false
        → Step (sync outside r p st ok q ls es) (sync holding r p st ok q ls es)
    unlock :
        {r : Renderer} {p st ok : Bool} {q : Option R} {ls es : List R}
        → Step (sync holding r p st ok q ls es) (sync outside r p st ok q ls es)
    call :
        {r : Renderer} {p st ok : Bool} {q : Option R} {ls es : List R} (n : R)
        → Step
            (sync holding r p st ok q ls es)
            (sync call_testing (signal_req r) true st ok (some n) (ls ++ (n ∷ [])) es)
    call_wait :
        {r : Renderer} {st ok : Bool} {q : Option R} {ls es : List R}
        → Step (sync call_testing r true st ok q ls es) (sync call_waiting r true st ok q ls es)
    call_lock :
        {r : Renderer} {p st ok : Bool} {q : Option R} {ls es : List R}
        → renderer_holds r ≡ false
        → Step (sync call_waking r p st ok q ls es) (sync call_testing r p st ok q ls es)
    call_done :
        {r : Renderer} {st ok : Bool} {q : Option R} {ls es : List R}
        → Step (sync call_testing r false st ok q ls es) (sync holding r false st ok q ls es)
    thread_start :
        {c : Caller} {p st ok : Bool} {q : Option R} {ls es : List R}
        → caller_holds c ≡ false
        → Step
            (sync c starting p st ok q ls es)
            (sync (signal_done c) testing p true render_init q ls es)
    thread_wait :
        {c : Caller} {st ok : Bool} {q : Option R} {ls es : List R}
        → Step (sync c testing false st ok q ls es) (sync c waiting false st ok q ls es)
    thread_lock :
        {c : Caller} {p st ok : Bool} {q : Option R} {ls es : List R}
        → caller_holds c ≡ false
        → Step (sync c waking p st ok q ls es) (sync c testing p st ok q ls es)
    thread_exec :
        {c : Caller} {st ok : Bool} {q : Option R} {ls es : List R}
        → Step
            (sync c testing true st ok q ls es)
            (sync (signal_done c) testing false st ok q ls (es ++ (if ok then current q else [])))

  pub data Reach (s : Sync R) : Sync R → Type 0 where
    here : Reach s s
    next : {t u : Sync R} → Reach s t → Step t u → Reach s u
    woken : {t u : Sync R} → Reach s t → Spurious t u → Reach s u
