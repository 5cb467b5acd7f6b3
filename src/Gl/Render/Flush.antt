-- ===== src/Gl/Render/Flush.antt =====
-- The loop of `frame_flush` in qemu/hw/arm/garmin_gl.c as a run of the two threads.
use garmin_gpsmap_emu.Prelude.{refl, true, false}
use garmin_gpsmap_emu.Prelude.{Option, none, some, List, [], ◌∷◌, ◌++◌}
use garmin_gpsmap_emu.Gl.Frame.{Frame}
use garmin_gpsmap_emu.Gl.Render.{Sync, Reach, sync, initial, current, signal_done, signal_req}
use garmin_gpsmap_emu.Gl.Render.{holding, waiting, caller_holds, renderer_holds}
use garmin_gpsmap_emu.Gl.Render.{start_wait, start_lock, start_done, lock, call}
use garmin_gpsmap_emu.Gl.Render.{call_wait, call_lock, call_done}
use garmin_gpsmap_emu.Gl.Render.{thread_start, thread_wait, thread_lock, thread_exec, here, next}

-- The vCPU in `gl_dispatch`, the render thread asleep, all requests answered.
abbrev pub at_rest : {R : Type 0} → Option R → List R → Sync R
at_rest q done = sync holding waiting false true true q done done

pub start-at_rest : {R : Type 0} → Reach {R = R} true initial (at_rest none [])
unfolding initial renderer_holds caller_holds signal_done
start-at_rest =
    next
      (next
        (next (next (next (next here start_wait) (thread_start refl)) thread_wait)
          (start_lock refl))
        start_done)
      (lock refl)

pub one_request :
    {R : Type 0} {s : Sync R} (q : Option R) (done : List R) (n : R)
    → Reach true s (at_rest q done)
    → Reach true s (at_rest (some n) (done ++ (n ∷ [])))
unfolding renderer_holds caller_holds signal_done signal_req current
one_request q done n path =
    next
      (next
        (next (next (next (next (next path (call n)) call_wait) (thread_lock refl)) thread_exec)
          thread_wait)
        (call_lock refl))
      call_done
