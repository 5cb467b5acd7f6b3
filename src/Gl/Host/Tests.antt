-- ===== src/Gl/Host/Tests.antt =====
-- Tests of the renderer at a host that only keeps which framebuffer is bound.
use garmin_gpsmap_emu.Prelude.{ℕ, ◌≡◌, refl, ◌≢◌, ◌⊎◌, arith}
use garmin_gpsmap_emu.Prelude.{true, false, ◌==◌, if◌then◌else◌, List, [], ◌∷◌, map}
use garmin_gpsmap_emu.Gl.Op.{op_bindframebuffer, op_deleteframebuffers, op_clear}
use garmin_gpsmap_emu.Gl.Frame.{GlReq, no_draw}
use garmin_gpsmap_emu.Gl.Host.{HostFn, HostCall, Arg, FloatOps, host, run, int}
use garmin_gpsmap_emu.Gl.Host.{gl_bind_framebuffer, gl_delete_framebuffers, gl_gen_framebuffers}
use garmin_gpsmap_emu.Gl.Host.{gl_get_integerv, gl_read_pixels, gl_check_framebuffer_status}
use garmin_gpsmap_emu.Gl.Host.Calm.{rebinds}
use garmin_gpsmap_emu.Gl.Host.Exec.{
  make_window, clear_window, exec, delete_framebuffers, silent, ask, render_init, render_exec,
  render_all, swap_buffers,
}
use garmin_gpsmap_emu.Gl.Host.Bound.{Framebuffers}
use garmin_gpsmap_emu.Gl.Host.Window.{window_presented, read_window}

-- Binding 9 is refused; a deletion unbinds; the pixels are the name that is bound.
abbrev toy_call : ℕ → HostFn → List Arg → ℕ × List ℕ
toy_call h gl_bind_framebuffer (target ∷ int n ∷ rest) = (if n == 9 then h else n, [])
toy_call h gl_delete_framebuffers args = (0, [])
toy_call h gl_gen_framebuffers args = (h, 1 ∷ [])
toy_call h gl_get_integerv args = (h, h ∷ [])
toy_call h gl_read_pixels args = (h, h ∷ [])
toy_call h gl_check_framebuffer_status args = (h, 0x8cd5 ∷ [])
toy_call h other args = (h, [])

abbrev toy : ℕ → HostCall → ℕ × List ℕ
toy h (host fn args) = toy_call h fn args

abbrev no_floats : FloatOps
no_floats = record {
  add = λ x y. x;
  div = λ x y. x;
  neg = λ x. x;
  is_zero = λ x. x == 0;
  of_int = λ x. x;
}

toy-other :
    (h : ℕ) (fn : HostFn) (args : List Arg) → rebinds fn ≡ false → (toy_call h fn args).0 ≡ h
toy-other h gl_bind_framebuffer args e = ground arith
toy-other h gl_delete_framebuffers args e = ground arith
toy-other h gl_gen_framebuffers args e = refl
toy-other h gl_get_integerv args e = refl
toy-other h gl_read_pixels args e = refl
toy-other h gl_check_framebuffer_status args e = refl
toy-other h other args e = refl

toy-bind : (h n after : ℕ) → after ≡ (if n == 9 then h else n) → (after ≡ n) ⊎ (after ≡ h)
toy-bind h n after e = ground arith

toy-Framebuffers : Framebuffers toy (λ h. h) 1
toy-Framebuffers = record {
  named = λ e. ground arith;
  window = λ h. refl;
  bind = λ h n after e. toy-bind h n after e;
  other = λ h fn args e. toy-other h fn args e;
  asked = λ h. refl;
}

abbrev requests : List GlReq
requests =
    map {A = ℕ × ℕ}
      (λ x. record {
        op =
            if x.0 == 0
            then op_bindframebuffer
            else if x.0 == 1
            then op_deleteframebuffers
            else op_clear;
        a = λ i. x.1;
        input = [];
        draw = no_draw;
      })
      ((0, 5) ∷ (0, 9) ∷ (1, 5) ∷ (2, 0) ∷ (0, 0) ∷ (0, 6) ∷ [])

-- After a deletion that unbinds, the window is bound.
deleted_rebinds :
    (render_exec toy no_floats 33 1 800 480 5
      (record { op = op_deleteframebuffers; a = λ i. 0; input = []; draw = no_draw })).left
    ≡ 1
unfolding render_exec exec delete_framebuffers silent run ask
deleted_rebinds = refl

window_presented_example :
    let drawn = render_all toy no_floats 33 1 800 480 1 requests in
    (drawn ≢ 0)
    × ((at : ℕ) × (at ≡ 1)
        × ((swap_buffers toy no_floats 33 1 800 480 drawn).out ≡ read_window toy 800 480 at))
unfolding render_init make_window ask clear_window run
window_presented_example =
    window_presented toy (λ h. h) 1 toy-Framebuffers no_floats 33 800 480 true true 0 1 requests
      refl
