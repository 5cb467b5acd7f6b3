-- ===== src/Gl/Host/Bound.antt =====
-- What the binding of framebuffers is in the host, for qemu/hw/arm/garmin_gl.c.
use garmin_gpsmap_emu.Prelude.{and_both}
use garmin_gpsmap_emu.Prelude.{ℕ, ◌≡◌, refl, sym, ap, ◌∙◌, ◌≢◌, ◌⊎◌}
use garmin_gpsmap_emu.Prelude.{Bool, true, false, not}
use garmin_gpsmap_emu.Prelude.{List, [], ◌∷◌, get_or}
use garmin_gpsmap_emu.Gl.Host.{HostFn, HostCall, Arg, host, run, int, output}
use garmin_gpsmap_emu.Gl.Host.{gl_bind_framebuffer, gl_get_integerv}
use garmin_gpsmap_emu.Gl.Host.Calm.{rebinds, calm}
use garmin_gpsmap_emu.Gl.Host.Exec.{ask}

-- What OpenGL documents of the framebuffer that is bound, for the framebuffer `fbo` of the window, which
-- the host has named and nobody deletes: a name that is bound is bound afterwards unless it is refused,
-- that of the window is not refused, no call but that and `glDeleteFramebuffers` changes the binding, and `glGetIntegerv` tells it. A name of the host's is not 0.
pub record Framebuffers {H : Type 0} (gl : H → HostCall → H × List ℕ) (bound : H → ℕ) (fbo : ℕ)
    : Type 0 where
  pub named : fbo ≢ 0
  pub window :
      (h : H) → bound ((gl h (host gl_bind_framebuffer (int 0x8d40 ∷ int fbo ∷ []))).0) ≡ fbo
  pub bind :
      (h : H) (n : ℕ) (after : H)
      → after ≡ (gl h (host gl_bind_framebuffer (int 0x8d40 ∷ int n ∷ []))).0
      → (bound after ≡ n) ⊎ (bound after ≡ bound h)
  pub other :
      (h : H) (fn : HostFn) (args : List Arg)
      → rebinds fn ≡ false
      → bound ((gl h (host fn args)).0) ≡ bound h
  pub asked : (h : H) → (gl h (host gl_get_integerv (int 0x8ca6 ∷ output ∷ []))).1 ≡ bound h ∷ []

is_false : (b : Bool) → not b ≡ true → b ≡ false
is_false true e = sym e
is_false false e = refl

module _ {H : Type 0} (gl : H → HostCall → H × List ℕ) (bound : H → ℕ) (fbo : ℕ)
    (laws : Framebuffers gl bound fbo) where
  pub run-bound : (cs : List HostCall) (h : H) → calm cs ≡ true → bound (run gl h cs) ≡ bound h
  unfolding run
  run-bound [] h e = refl
  run-bound (host fn args ∷ rest) h e =
      let (still, later) = and_both (not (rebinds fn)) (calm rest) e in
      run-bound rest ((gl h (host fn args)).0) later
      ∙ laws.other h fn args (is_false (rebinds fn) still)

  pub ask-bound : (h : H) → (ask gl h (host gl_get_integerv (int 0x8ca6 ∷ output ∷ []))).1 ≡ bound h
  unfolding ask
  ask-bound h = ap (λ words. get_or words 0 0) (laws.asked h)
