-- ===== src/Gl/Host/Window.antt =====
-- The framebuffer that stands for the window in qemu/hw/arm/garmin_gl.c: what is drawn is presented.
use garmin_gpsmap_emu.Prelude.{arith, ℕ, zero, suc, ◌≡◌, refl, sym, ap, ◌∙◌, ◌≢◌, inl, inr}
use garmin_gpsmap_emu.Prelude.{Bool, true, false, if◌then◌else◌, ◌==◌}
use garmin_gpsmap_emu.Prelude.{List, [], ◌∷◌}
use garmin_gpsmap_emu.Gl.Frame.{GlReq}
use garmin_gpsmap_emu.Gl.Host.{HostCall, FloatOps, host, run, int, input, output}
use garmin_gpsmap_emu.Gl.Host.{gl_bind_framebuffer, gl_delete_framebuffers}
use garmin_gpsmap_emu.Gl.Host.{gl_read_pixels, gl_finish, gl_pixel_storei}
use garmin_gpsmap_emu.Gl.Host.Plain.{plain}
use garmin_gpsmap_emu.Gl.Host.Calm.{plain-calm}
use garmin_gpsmap_emu.Gl.Host.Exec.{answer, write_out, silent, ask, fb_target}
use garmin_gpsmap_emu.Gl.Host.Exec.{render_init, delete_framebuffers, swap_buffers, draw_tex}
use garmin_gpsmap_emu.Gl.Host.Exec.{exec, render_exec, render_all}
use garmin_gpsmap_emu.Gl.Op.{GlOp, op_geterror, op_istexture, op_isenabled, op_readpixels}
use garmin_gpsmap_emu.Gl.Op.{op_gentextures, op_getfloatv, op_getintegerv, op_getbooleanv}
use garmin_gpsmap_emu.Gl.Op.{op_getfixedv, op_getlightfv, op_getmaterialfv, op_gettexenvfv}
use garmin_gpsmap_emu.Gl.Op.{op_gettexparamfv, op_getclipplanef, op_drawtex, op_bindframebuffer}
use garmin_gpsmap_emu.Gl.Op.{op_genframebuffers, op_genrenderbuffers, op_deleteframebuffers}
use garmin_gpsmap_emu.Gl.Op.{op_checkframebuffer, op_swapbuffers}
use garmin_gpsmap_emu.Gl.Host.Bound.{Framebuffers, run-bound, ask-bound}
use garmin_gpsmap_emu.Gl.Host.Start.{init-bound}

-- The pixels of the window, read where the host is in the state `at`.
abbrev pub read_window :
    {H : Type 0} (gl : H → HostCall → H × List ℕ) (gl_width gl_height : ℕ) (at : H) → List ℕ
read_window gl gl_width gl_height at =
    (gl at (
      host gl_read_pixels
        (int 0 ∷ int 0 ∷ int gl_width ∷ int gl_height ∷ int 0x1908 ∷ int 0x1401 ∷ output ∷ []))).1

not_zero : (n : ℕ) → n == 0 ≡ false → n ≢ 0
not_zero zero e = ground arith
not_zero (suc n) e = ground arith

module _ {H : Type 0} (gl : H → HostCall → H × List ℕ) (bound : H → ℕ) (fbo : ℕ)
    (laws : Framebuffers gl bound fbo) where
  -- A name other than 0, or the window's for 0.
  bind-visible :
      (h : H) (n : ℕ)
      → n ≢ 0
      → bound h ≢ 0
      → bound ((gl h (host gl_bind_framebuffer (int 0x8d40 ∷ int n ∷ []))).0) ≢ 0
  bind-visible h n some_name seen = elim (laws.bind h n _ refl) [
    | inl e ↦ λ z. some_name (sym e ∙ z)
    | inr e ↦ λ z. seen (sym e ∙ z)
  ]

  same-visible : {a h : H} → bound a ≡ bound h → bound h ≢ 0 → bound a ≢ 0
  same-visible e seen = λ z. seen (sym e ∙ z)

  is_window : {a : H} → bound a ≡ fbo → bound a ≢ 0
  is_window e = λ z. laws.named (sym e ∙ z)

  bind-if :
      (b : Bool) (n : ℕ) (h : H)
      → n ≢ 0
      → (b ≡ false → bound h ≢ 0)
      → (bound h ≡ 0 → n ≡ fbo)
      → bound (run gl h (if b then host gl_bind_framebuffer (int 0x8d40 ∷ int n ∷ []) ∷ [] else []))
        ≢ 0
  unfolding run
  bind-if true n h some_name left hidden = elim (laws.bind h n _ refl) [
    | inl e ↦ λ z. some_name (sym e ∙ z)
    | inr e ↦ λ z.
        let bound_window = laws.window h in
        laws.named (
          sym bound_window
          ∙ (ap (λ m. bound ((gl h (host gl_bind_framebuffer (int 0x8d40 ∷ int m ∷ []))).0))
              (sym (hidden (sym e ∙ z))))
          ∙ z)
  ]
  bind-if false n h some_name left hidden = left refl

  fb_target-named : (fb : ℕ) → fb_target fbo fb ≢ 0
  unfolding fb_target
  fb_target-named zero = laws.named
  fb_target-named (suc n) = λ z. ground arith

  module _ (fl : FloatOps) (version gl_width gl_height : ℕ) where
    delete-visible :
        (h : H) (r : GlReq)
        → bound h ≢ 0
        → bound (delete_framebuffers gl fl version fbo gl_width gl_height h r).left ≢ 0
    unfolding delete_framebuffers silent run ask
    delete-visible h r seen =
        let gone : H = (gl h (host gl_delete_framebuffers (int (r.a 0) ∷ input 0 ∷ []))).0 in
        bind-if _ fbo _ laws.named
          (λ e.
            same-visible (laws.other gone _ _ refl)
              (λ z. not_zero _ e (ask-bound gl bound fbo laws gone ∙ z)))
          (λ z. refl)

    -- Before the read the window is bound.
    swap-visible :
        (h : H) → bound h ≢ 0 → bound (swap_buffers gl fl version fbo gl_width gl_height h).left ≢ 0
    unfolding swap_buffers run ask
    swap-visible h seen =
        let told = ask-bound gl bound fbo laws h in
        let shown =
          run-bound gl bound fbo laws
            (host gl_finish [] ∷ host gl_pixel_storei (int 0x0d05 ∷ int 1 ∷ []) ∷ []) _ refl
          ∙ laws.window _ in
        let read = laws.other _ gl_read_pixels _ refl ∙ shown in
        bind-if _ _ _ (λ z. seen (sym told ∙ z)) (λ e. is_window read)
          (λ z. absurd (is_window read z))

    drawtex-visible :
        (h : H) (r : GlReq)
        → bound h ≢ 0
        → bound (draw_tex gl fl version fbo gl_width gl_height h r).left ≢ 0
    unfolding draw_tex silent ask
    drawtex-visible h r seen =
        same-visible
          (run-bound gl bound fbo laws _ _ refl
            ∙ laws.other _ _ _ refl
            ∙ laws.other _ _ _ refl
            ∙ laws.other h _ _ refl)
          seen

    exec-visible :
        (h : H) (op : GlOp) (r : GlReq)
        → bound h ≢ 0
        → bound (exec gl fl version fbo gl_width gl_height h op r).left ≢ 0
    unfolding exec answer write_out silent run
    exec-visible h op_geterror r seen = same-visible (laws.other h _ _ refl) seen
    exec-visible h op_istexture r seen = same-visible (laws.other h _ _ refl) seen
    exec-visible h op_isenabled r seen = same-visible (laws.other h _ _ refl) seen
    exec-visible h op_readpixels r seen =
        same-visible
          (laws.other _ _ _ refl
            ∙ run-bound gl bound fbo laws (host gl_pixel_storei (int 0x0d05 ∷ int 1 ∷ []) ∷ []) h
                refl)
          seen
    exec-visible h op_gentextures r seen = same-visible (laws.other h _ _ refl) seen
    exec-visible h op_getfloatv r seen = same-visible (laws.other h _ _ refl) seen
    exec-visible h op_getintegerv r seen = same-visible (laws.other h _ _ refl) seen
    exec-visible h op_getbooleanv r seen = same-visible (laws.other h _ _ refl) seen
    exec-visible h op_getfixedv r seen = same-visible (laws.other h _ _ refl) seen
    exec-visible h op_getlightfv r seen = same-visible (laws.other h _ _ refl) seen
    exec-visible h op_getmaterialfv r seen = same-visible (laws.other h _ _ refl) seen
    exec-visible h op_gettexenvfv r seen = same-visible (laws.other h _ _ refl) seen
    exec-visible h op_gettexparamfv r seen = same-visible (laws.other h _ _ refl) seen
    exec-visible h op_getclipplanef r seen = same-visible (laws.other h _ _ refl) seen
    exec-visible h op_drawtex r seen = drawtex-visible h r seen
    exec-visible h op_bindframebuffer r seen = bind-visible h _ (fb_target-named (r.a 1)) seen
    exec-visible h op_genframebuffers r seen = same-visible (laws.other h _ _ refl) seen
    exec-visible h op_genrenderbuffers r seen = same-visible (laws.other h _ _ refl) seen
    exec-visible h op_deleteframebuffers r seen = delete-visible h r seen
    exec-visible h op_checkframebuffer r seen = same-visible (laws.other h _ _ refl) seen
    exec-visible h op_swapbuffers r seen = swap-visible h seen
    exec-visible h other r seen =
        same-visible
          (run-bound gl bound fbo laws (plain version other r) h (plain-calm version other r)) seen

    render_all-visible :
        (rs : List GlReq) (h : H)
        → bound h ≢ 0
        → bound (render_all gl fl version fbo gl_width gl_height h rs) ≢ 0
    unfolding render_all render_exec
    render_all-visible [] h seen = seen
    render_all-visible (r ∷ rest) h seen =
        render_all-visible rest (exec gl fl version fbo gl_width gl_height h r.op r).left
          (exec-visible h r.op r seen)

    swap_reads :
        (h : H)
        → (at : H) × (bound at ≡ fbo)
          × ((swap_buffers gl fl version fbo gl_width gl_height h).out
              ≡ read_window gl gl_width gl_height at)
    unfolding swap_buffers ask run
    swap_reads h = (
      _,
      run-bound gl bound fbo laws
            (host gl_finish [] ∷ host gl_pixel_storei (int 0x0d05 ∷ int 1 ∷ []) ∷ []) _ refl
          ∙ laws.window _,
      refl,
    )

    -- Under the laws of `Framebuffers`: when `render_init` has succeeded with `fbo`, whatever requests
    -- the render thread has run since, the host's own framebuffer 0, which nobody sees, is not the one
    -- that is drawn to, and the pixels that a swap hands out are read while that of the window is bound.
    pub window_presented :
        (context desktop : Bool) (h h0 : H) (rs : List GlReq)
        → render_init gl context desktop version gl_width gl_height h ≡ (true, fbo, h0)
        → let drawn = render_all gl fl version fbo gl_width gl_height h0 rs in
          (bound drawn ≢ 0)
          × ((at : H) × (bound at ≡ fbo)
              × ((swap_buffers gl fl version fbo gl_width gl_height drawn).out
                  ≡ read_window gl gl_width gl_height at))
    window_presented context desktop h h0 rs e = (
      render_all-visible rs h0 (
          is_window
            (init-bound gl bound fbo laws version gl_width gl_height context desktop h h0 e)),
      swap_reads _,
    )
