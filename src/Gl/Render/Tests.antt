-- ===== src/Gl/Render/Tests.antt =====
-- Tests of the hand-over to the render thread, and its theorems at concrete runs.
use garmin_gpsmap_emu.Prelude.{ℕ, List, ◌≡◌, refl, true, false, if◌then◌else◌}
use garmin_gpsmap_emu.Prelude.{none, some, [], ◌∷◌}
use garmin_gpsmap_emu.Gl.Frame.{Frame, mk_bind_req}
use garmin_gpsmap_emu.Gl.Render.{Reach, sync, initial, waiting, waking, call_testing}
use garmin_gpsmap_emu.Gl.Render.{signal_req, call, next}
use garmin_gpsmap_emu.Gl.Render.Serve.{returned_served}
use garmin_gpsmap_emu.Gl.Render.Progress.{Returns, call_returns}
use garmin_gpsmap_emu.Gl.Render.Flush.{at_rest, start-at_rest, one_request}

-- Two requests, answered one after the other.
two_served : Reach {R = ℕ} true initial (at_rest (some 8) (7 ∷ 8 ∷ []))
two_served = one_request (some 7) (7 ∷ []) 8 (one_request none [] 7 start-at_rest)

-- A request is in `r_cur` and the vCPU has not gone to sleep yet.
one_asked :
    Reach {R = ℕ} true initial (sync call_testing waking true true true (some 7) (7 ∷ []) [])
unfolding signal_req
one_asked = next start-at_rest (call 7)

abbrev two_queued : Frame
two_queued = record {
  queue = mk_bind_req 3 ∷ mk_bind_req 4 ∷ [];
  executed = [];
  texsrcs = λ id. none;
  gpu_textures = λ id. false;
  bound_at_swap = 0;
}

abbrev two_asked : List ℕ
two_asked = 7 ∷ 8 ∷ []

returned_served_example : two_asked ≡ (if true then two_asked else [])
returned_served_example =
    returned_served {init = true} waiting false true true (some 8) two_asked two_asked two_served

call_returns_example :
    Returns {R = ℕ} true (sync call_testing waking true true true (some 7) (7 ∷ []) [])
call_returns_example =
    call_returns (sync call_testing waking true true true (some 7) (7 ∷ []) []) one_asked refl
