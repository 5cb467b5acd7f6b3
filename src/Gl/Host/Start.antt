-- ===== src/Gl/Host/Start.antt =====
-- `render_init` of qemu/hw/arm/garmin_gl.c leaves the framebuffer of the window bound.
use garmin_gpsmap_emu.Prelude.{arith, ℕ, ◌≡◌, refl, sym, ap, ◌∙◌}
use garmin_gpsmap_emu.Prelude.{Bool, true, false, not, ◌||◌, if◌then◌else◌, ◌==◌, ltb}
use garmin_gpsmap_emu.Prelude.{List, [], ◌∷◌}
use garmin_gpsmap_emu.Gl.Host.{HostCall, host, run, int, output}
use garmin_gpsmap_emu.Gl.Host.{gl_bind_framebuffer}
use garmin_gpsmap_emu.Gl.Host.{gl_gen_framebuffers}
use garmin_gpsmap_emu.Gl.Host.Exec.{ask}
use garmin_gpsmap_emu.Gl.Host.Exec.{render_init, make_window, clear_window}
use garmin_gpsmap_emu.Gl.Host.Bound.{Framebuffers, run-bound}

module _ {H : Type 0} (gl : H → HostCall → H × List ℕ) (bound : H → ℕ) (fbo : ℕ)
    (laws : Framebuffers gl bound fbo) (version gl_width gl_height : ℕ) where
  init_split :
      (refused incomplete : Bool) (n : ℕ) (a b h h0 : H) (t : Bool × ℕ × H)
      → t ≡ (true, fbo, h0)
      → t ≡ (if refused then (false, 0, h) else if incomplete then (false, n, a) else (true, n, b))
      → (n ≡ fbo) × (b ≡ h0)
  init_split true incomplete n a b h h0 t e d =
      let never : true ≡ false = sym (ap (λ u. u.0) e) ∙ ap (λ u. u.0) d in ground arith
  init_split false true n a b h h0 t e d =
      let never : true ≡ false = sym (ap (λ u. u.0) e) ∙ ap (λ u. u.0) d in ground arith
  init_split false false n a b h h0 t e d = (ap (λ u. u.1) (sym d ∙ e), ap (λ u. u.2) (sym d ∙ e))

  make_window-bound :
      (h : H)
      → (make_window gl gl_width gl_height h).0 ≡ fbo
      → bound (make_window gl gl_width gl_height h).1 ≡ fbo
  unfolding make_window ask run
  make_window-bound h name =
      laws.other _ _ _ refl
      ∙ run-bound gl bound fbo laws (_ ∷ _ ∷ _ ∷ []) _ refl
      ∙ laws.other _ _ _ refl
      ∙ run-bound gl bound fbo laws (_ ∷ _ ∷ _ ∷ []) _ refl
      ∙ laws.other _ _ _ refl
      ∙ ap
          (λ n.
            bound
              (gl (ask gl h (host gl_gen_framebuffers (int 1 ∷ output ∷ []))).0
                (host gl_bind_framebuffer (int 0x8d40 ∷ int n ∷ []))).0)
          name
      ∙ laws.window _

  pub init-bound :
      (context desktop : Bool) (h h0 : H)
      → render_init gl context desktop version gl_width gl_height h ≡ (true, fbo, h0)
      → bound h0 ≡ fbo
  unfolding render_init clear_window
  init-bound context desktop h h0 e =
      let made = make_window gl gl_width gl_height h in
      let cleared = clear_window gl gl_width gl_height made.1 in
      let (name, last) =
        init_split (not context || not desktop || ltb version 20) (not (made.2 == 0x8cd5)) made.0
          made.1 cleared h h0 (render_init gl context desktop version gl_width gl_height h) e
          refl in
      ap bound (sym last)
      ∙ run-bound gl bound fbo laws (_ ∷ _ ∷ _ ∷ []) made.1 refl
      ∙ make_window-bound h name
