-- ===== src/Gl/Host/Exec.antt =====
-- What the render thread does with a request, qemu/hw/arm/garmin_gl.c, `render_exec`, and how it sets
-- up the framebuffer that stands for the window, `render_init`.
use garmin_gpsmap_emu.Prelude.{ℕ, ◌+◌, u32, Bool, true, false, not, ◌&&◌, ◌||◌}
use garmin_gpsmap_emu.Prelude.{if◌then◌else◌, ◌==◌, ltb, leb, nonzero, List, [], ◌∷◌, get_or}
use garmin_gpsmap_emu.Gl.Frame.{GlReq}
use garmin_gpsmap_emu.Gl.Host.{
  HostCall, FloatOps, Arg, host, run, int, float, values, input, output,
}
use garmin_gpsmap_emu.Gl.Host.Plain.{plain}
use garmin_gpsmap_emu.Gl.Op.{GlOp, op_bindframebuffer, op_checkframebuffer, op_deleteframebuffers}
use garmin_gpsmap_emu.Gl.Op.{op_drawtex, op_genframebuffers, op_genrenderbuffers, op_gentextures}
use garmin_gpsmap_emu.Gl.Op.{op_getbooleanv, op_getclipplanef, op_geterror, op_getfixedv}
use garmin_gpsmap_emu.Gl.Op.{op_getfloatv, op_getintegerv, op_getlightfv, op_getmaterialfv}
use garmin_gpsmap_emu.Gl.Op.{op_gettexenvfv, op_gettexparamfv, op_isenabled, op_istexture}
use garmin_gpsmap_emu.Gl.Op.{op_readpixels, op_swapbuffers}
use garmin_gpsmap_emu.Gl.Host.{
  gl_bind_framebuffer, gl_bind_renderbuffer, gl_check_framebuffer_status,
}
use garmin_gpsmap_emu.Gl.Host.{gl_clear, gl_clear_color, gl_delete_framebuffers, gl_draw_arrays}
use garmin_gpsmap_emu.Gl.Host.{gl_enable_client_state, gl_finish, gl_framebuffer_renderbuffer}
use garmin_gpsmap_emu.Gl.Host.{gl_gen_framebuffers, gl_gen_renderbuffers, gl_gen_textures}
use garmin_gpsmap_emu.Gl.Host.{gl_get_clip_plane, gl_get_error, gl_get_floatv, gl_get_integerv}
use garmin_gpsmap_emu.Gl.Host.{gl_get_lightfv, gl_get_materialfv, gl_get_tex_envfv}
use garmin_gpsmap_emu.Gl.Host.{gl_get_tex_level_parameteriv, gl_get_tex_parameterfv, gl_is_enabled}
use garmin_gpsmap_emu.Gl.Host.{gl_is_texture, gl_load_identity, gl_matrix_mode, gl_ortho}
use garmin_gpsmap_emu.Gl.Host.{gl_pixel_storei, gl_pop_matrix, gl_push_matrix, gl_read_pixels}
use garmin_gpsmap_emu.Gl.Host.{gl_renderbuffer_storage, gl_tex_coord_pointer, gl_translatef}
use garmin_gpsmap_emu.Gl.Host.{gl_vertex_pointer, gl_viewport}

-- The state of the host afterwards, `result`, and what the host wrote to `out`.
pub record Reply (H : Type 0) : Type 0 where
  pub left : H
  pub result : ℕ
  pub out : List ℕ

unfoldable pub fb_target : ℕ → ℕ → ℕ
fb_target fbo fb = if nonzero fb then fb else fbo

-- The sign of a number of 32 bits.
abbrev pub not_positive : ℕ → Bool
not_positive n = n == 0 || leb 0x80000000 n

module _ {H : Type 0} (gl : H → HostCall → H × List ℕ) where
  -- A call whose answer is the result, and one whose answer goes to `out`.
  unfoldable pub answer : H → HostCall → Reply H
  answer h c =
      let (after, words) = gl h c in record { left = after; result = get_or words 0 0; out = [] }

  unfoldable pub write_out : H → HostCall → Reply H
  write_out h c = let (after, words) = gl h c in record { left = after; result = 0; out = words }

  unfoldable pub silent : H → List HostCall → Reply H
  silent h calls = record { left = run gl h calls; result = 0; out = [] }

  -- `glGetIntegerv` and `glGetTexLevelParameteriv` for one number.
  unfoldable pub ask : H → HostCall → H × ℕ
  ask h c = let (after, words) = gl h c in (after, get_or words 0 0)

  -- A framebuffer of the window's size with its colours and depths: its name, the host afterwards and
  -- what the host says of the framebuffer.
  unfoldable pub make_window : ℕ → ℕ → H → ℕ × H × ℕ
  make_window gl_width gl_height h =
      let (named, fbo) = ask h (host gl_gen_framebuffers (int 1 ∷ output ∷ [])) in
      let bound = run gl named (host gl_bind_framebuffer (int 0x8d40 ∷ int fbo ∷ []) ∷ []) in
      let (coloured, fbo_color) = ask bound (host gl_gen_renderbuffers (int 1 ∷ output ∷ [])) in
      let size = int gl_width ∷ int gl_height ∷ [] in
      let with_color = run gl coloured (
        host gl_bind_renderbuffer (int 0x8d41 ∷ int fbo_color ∷ [])
        ∷ host gl_renderbuffer_storage (int 0x8d41 ∷ int 0x8058 ∷ size)
        ∷ host gl_framebuffer_renderbuffer
            (int 0x8d40 ∷ int 0x8ce0 ∷ int 0x8d41 ∷ int fbo_color ∷ [])
        ∷ []) in
      let (deep, fbo_depth) = ask with_color (host gl_gen_renderbuffers (int 1 ∷ output ∷ [])) in
      let with_depth = run gl deep (
        host gl_bind_renderbuffer (int 0x8d41 ∷ int fbo_depth ∷ [])
        ∷ host gl_renderbuffer_storage (int 0x8d41 ∷ int 0x88f0 ∷ size)
        ∷ host gl_framebuffer_renderbuffer
            (int 0x8d40 ∷ int 0x821a ∷ int 0x8d41 ∷ int fbo_depth ∷ [])
        ∷ []) in
      let (checked, status) = ask with_depth (host gl_check_framebuffer_status (int 0x8d40 ∷ [])) in
      (fbo, checked, status)

  unfoldable pub clear_window : ℕ → ℕ → H → H
  clear_window gl_width gl_height h = run gl h (
      host gl_viewport (int 0 ∷ int 0 ∷ int gl_width ∷ int gl_height ∷ [])
      ∷ host gl_clear_color (int 0 ∷ int 0 ∷ int 0 ∷ int 1 ∷ [])
      ∷ host gl_clear (int 0x4100 ∷ [])
      ∷ [])

  -- Whether the renderer came about, the framebuffer that stands for the window, and the host
  -- afterwards. `context`, `desktop` and `version` are what the host says of its context.
  unfoldable pub render_init : Bool → Bool → ℕ → ℕ → ℕ → H → Bool × ℕ × H
  render_init context desktop version gl_width gl_height h =
      let (fbo, made, status) = make_window gl_width gl_height h in
      if not context || not desktop || ltb version 20
      then (false, 0, h)
      else if not (status == 0x8cd5)
      then (false, fbo, made)
      else (true, fbo, clear_window gl_width gl_height made)

module _ {H : Type 0} (gl : H → HostCall → H × List ℕ) (fl : FloatOps)
    (version fbo gl_width gl_height : ℕ) where
  -- `glDeleteFramebuffers`, after which the window is bound if nothing is.
  unfoldable pub delete_framebuffers : H → GlReq → Reply H
  delete_framebuffers h r =
      let deleted = (gl h (host gl_delete_framebuffers (int (r.a 0) ∷ input 0 ∷ []))).0 in
      let (asked, bound) = ask gl deleted (host gl_get_integerv (int 0x8ca6 ∷ output ∷ [])) in
      silent gl asked
        (if bound == 0 then host gl_bind_framebuffer (int 0x8d40 ∷ int fbo ∷ []) ∷ [] else [])

  -- The window is read back, then what was bound is bound again.
  unfoldable pub swap_buffers : H → Reply H
  swap_buffers h =
      let (asked, bound) = ask gl h (host gl_get_integerv (int 0x8ca6 ∷ output ∷ [])) in
      let ready = run gl asked (
        host gl_bind_framebuffer (int 0x8d40 ∷ int fbo ∷ [])
        ∷ host gl_finish []
        ∷ host gl_pixel_storei (int 0x0d05 ∷ int 1 ∷ [])
        ∷ []) in
      let (read, pixels) = gl ready (
        host gl_read_pixels
          (int 0 ∷ int 0 ∷ int gl_width ∷ int gl_height ∷ int 0x1908 ∷ int 0x1401 ∷ output ∷ [])) in
      let restore : List HostCall =
        if not (not_positive bound) && not (bound == fbo)
        then host gl_bind_framebuffer (int 0x8d40 ∷ int bound ∷ []) ∷ []
        else [] in
      record { left = run gl read restore; result = 1; out = pixels }

  -- A rectangle on the screen with a part of the texture, GL_OES_draw_texture.
  unfoldable pub draw_tex : H → GlReq → Reply H
  draw_tex h r =
      let (h1, wide) =
        ask gl h
          (host gl_get_tex_level_parameteriv (int 0x0de1 ∷ int 0 ∷ int 0x1000 ∷ output ∷ [])) in
      let (h2, high) =
        ask gl h1
          (host gl_get_tex_level_parameteriv (int 0x0de1 ∷ int 0 ∷ int 0x1001 ∷ output ∷ [])) in
      let empty = not_positive wide || not_positive high in
      let tw = fl.of_int (if empty then 1 else wide) in
      let th = fl.of_int (if empty then 1 else high) in
      let whole = fl.is_zero (r.a 7) && fl.is_zero (r.a 8) in
      let cu = if whole then fl.of_int 0 else r.a 5 in
      let cv = if whole then fl.of_int 0 else r.a 6 in
      let cw = if whole then tw else r.a 7 in
      let ch = if whole then th else r.a 8 in
      let s0 = fl.div cu tw in
      let t0 = fl.div cv th in
      let s1 = fl.div (fl.add cu cw) tw in
      let t1 = fl.div (fl.add cv ch) th in
      let x1 = fl.add (r.a 0) (r.a 3) in
      let y1 = fl.add (r.a 1) (r.a 4) in
      let (h3, vp) = gl h2 (host gl_get_integerv (int 0x0ba2 ∷ output ∷ [])) in
      let side : ℕ → Arg = λ i. float (fl.of_int (get_or vp i 0)) in
      let far : ℕ → Arg = λ i. float (fl.of_int (u32 (get_or vp i 0 + get_or vp (i + 2) 0))) in
      silent gl h3 (
        host gl_matrix_mode (int 0x1701 ∷ [])
        ∷ host gl_push_matrix []
        ∷ host gl_load_identity []
        ∷ host gl_ortho (
            side 0
            ∷ far 0
            ∷ side 1
            ∷ far 1
            ∷ float (fl.of_int 0xffffffff)
            ∷ float (fl.of_int 1)
            ∷ [])
        ∷ host gl_matrix_mode (int 0x1700 ∷ [])
        ∷ host gl_push_matrix []
        ∷ host gl_load_identity []
        ∷ host gl_translatef
            (float (fl.of_int 0) ∷ float (fl.of_int 0) ∷ float (fl.neg (r.a 2)) ∷ [])
        ∷ host gl_enable_client_state (int 0x8074 ∷ [])
        ∷ host gl_enable_client_state (int 0x8078 ∷ [])
        ∷ host gl_vertex_pointer (
            int 2
            ∷ int 0x1406
            ∷ int 0
            ∷ values (r.a 0 ∷ r.a 1 ∷ x1 ∷ r.a 1 ∷ x1 ∷ y1 ∷ r.a 0 ∷ y1 ∷ [])
            ∷ [])
        ∷ host gl_tex_coord_pointer
            (int 2 ∷ int 0x1406 ∷ int 0 ∷ values (s0 ∷ t0 ∷ s1 ∷ t0 ∷ s1 ∷ t1 ∷ s0 ∷ t1 ∷ []) ∷ [])
        ∷ host gl_draw_arrays (int 6 ∷ int 0 ∷ int 4 ∷ [])
        ∷ host gl_pop_matrix []
        ∷ host gl_matrix_mode (int 0x1701 ∷ [])
        ∷ host gl_pop_matrix []
        ∷ host gl_matrix_mode (int 0x1700 ∷ [])
        ∷ [])

  -- The doubles of `glGetClipPlane` are answered as the floats that go to `out`.
  unfoldable pub exec : H → GlOp → GlReq → Reply H
  exec h op_geterror r = answer gl h (host gl_get_error [])
  exec h op_istexture r = answer gl h (host gl_is_texture (int (r.a 0) ∷ []))
  exec h op_isenabled r = answer gl h (host gl_is_enabled (int (r.a 0) ∷ []))
  exec h op_readpixels r =
      let packed = run gl h (host gl_pixel_storei (int 0x0d05 ∷ int 1 ∷ []) ∷ []) in
      write_out gl packed (
        host gl_read_pixels (
          int (r.a 0)
          ∷ int (r.a 1)
          ∷ int (r.a 2)
          ∷ int (r.a 3)
          ∷ int (r.a 4)
          ∷ int (r.a 5)
          ∷ output
          ∷ []))
  exec h op_gentextures r = write_out gl h (host gl_gen_textures (int (r.a 0) ∷ output ∷ []))
  exec h op_getfloatv r = write_out gl h (host gl_get_floatv (int (r.a 0) ∷ output ∷ []))
  exec h op_getintegerv r = write_out gl h (host gl_get_floatv (int (r.a 0) ∷ output ∷ []))
  exec h op_getbooleanv r = write_out gl h (host gl_get_floatv (int (r.a 0) ∷ output ∷ []))
  exec h op_getfixedv r = write_out gl h (host gl_get_floatv (int (r.a 0) ∷ output ∷ []))
  exec h op_getlightfv r =
      write_out gl h (host gl_get_lightfv (int (r.a 0) ∷ int (r.a 1) ∷ output ∷ []))
  exec h op_getmaterialfv r =
      write_out gl h (host gl_get_materialfv (int (r.a 0) ∷ int (r.a 1) ∷ output ∷ []))
  exec h op_gettexenvfv r =
      write_out gl h (host gl_get_tex_envfv (int (r.a 0) ∷ int (r.a 1) ∷ output ∷ []))
  exec h op_gettexparamfv r =
      write_out gl h (host gl_get_tex_parameterfv (int (r.a 0) ∷ int (r.a 1) ∷ output ∷ []))
  exec h op_getclipplanef r = write_out gl h (host gl_get_clip_plane (int (r.a 0) ∷ output ∷ []))
  exec h op_drawtex r = draw_tex h r
  exec h op_bindframebuffer r =
      silent gl h (host gl_bind_framebuffer (int 0x8d40 ∷ int (fb_target fbo (r.a 1)) ∷ []) ∷ [])
  exec h op_genframebuffers r =
      write_out gl h (host gl_gen_framebuffers (int (r.a 0) ∷ output ∷ []))
  exec h op_genrenderbuffers r =
      write_out gl h (host gl_gen_renderbuffers (int (r.a 0) ∷ output ∷ []))
  exec h op_deleteframebuffers r = delete_framebuffers h r
  exec h op_checkframebuffer r = answer gl h (host gl_check_framebuffer_status (int 0x8d40 ∷ []))
  exec h op_swapbuffers r = swap_buffers h
  exec h other r = silent gl h (plain version other r)

  unfoldable pub render_exec : H → GlReq → Reply H
  render_exec h r = exec h r.op r

  -- The requests of a frame.
  unfoldable pub render_all : H → List GlReq → H
  render_all h [] = h
  render_all h (r ∷ rest) = let reply = render_exec h r in render_all reply.left rest
