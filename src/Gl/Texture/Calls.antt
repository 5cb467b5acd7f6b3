-- ===== src/Gl/Texture/Calls.antt =====
-- The calls on textures one after another, qemu/hw/arm/garmin_gl.c, `gl_dispatch`.
use garmin_gpsmap_emu.Prelude.{ℕ, Bool, if_elim}
use garmin_gpsmap_emu.Prelude.{Option, none, some, List, [], ◌∷◌}
use garmin_gpsmap_emu.Gl.Op.{op_is_query}
use garmin_gpsmap_emu.Gl.Frame.{
  GlReq, Frame, frame_flush, sync_large_textures, submit, is_swap, sync_queue,
}
use garmin_gpsmap_emu.Gl.Texture.{forget_all, render_to, tex_image}
use garmin_gpsmap_emu.Gl.Texture.Rendered.{IsRendered, forget_all-IsRendered, render_to-IsRendered}
use garmin_gpsmap_emu.Gl.Texture.Rendered.{
  tex_image-IsRendered, sync_queue-IsRendered, resync-IsRendered,
}

-- An upload, a texture that becomes the target of a framebuffer, names that are deleted, names that are
-- given out, and any other request.
pub data TextureCall : Type 0 where
  upload : Bool → (ℕ → ℕ) → GlReq → TextureCall
  target : GlReq → TextureCall
  delete : List ℕ → GlReq → TextureCall
  generate : List ℕ → GlReq → TextureCall
  request : GlReq → TextureCall

module _ (guest_read : ℕ → ℕ → Option (List ℕ)) (garmin_gl_resync : Bool) where
  -- A call while the texture `bound` is bound, `ids` the keys of the sources.
  unfoldable pub texture_call : ℕ → List ℕ → ℕ → Frame → TextureCall → Frame
  texture_call unpack_alignment ids bound f (upload sub raw r) =
      let (made, g) = tex_image guest_read unpack_alignment sub bound raw r f in
      elim made [ none ↦ g | some q ↦ submit guest_read garmin_gl_resync ids bound g q ]
  texture_call unpack_alignment ids bound f (target r) =
      submit guest_read garmin_gl_resync ids bound (render_to f (r.a 3)) r
  texture_call unpack_alignment ids bound f (delete names r) =
      submit guest_read garmin_gl_resync ids bound (forget_all f names) r
  texture_call unpack_alignment ids bound f (generate names r) =
      forget_all (submit guest_read garmin_gl_resync ids bound f r) names
  texture_call unpack_alignment ids bound f (request r) =
      submit guest_read garmin_gl_resync ids bound f r

  unfoldable pub texture_calls : Frame → List (ℕ × List ℕ × ℕ × TextureCall) → Frame
  texture_calls f [] = f
  texture_calls f ((unpack_alignment, ids, bound, c) ∷ rest) =
      texture_calls (texture_call unpack_alignment ids bound f c) rest

  sync_large_textures-IsRendered :
      (ids : List ℕ) (f : Frame)
      → IsRendered f
      → IsRendered (sync_large_textures guest_read garmin_gl_resync ids f)
  unfolding sync_large_textures IsRendered
  sync_large_textures-IsRendered ids f h =
      let synced = sync_queue-IsRendered guest_read f.queue (record f { queue = [] }) h in
      if_elim IsRendered garmin_gl_resync
        (λ on.
          resync-IsRendered guest_read ids (sync_queue guest_read (record f { queue = [] }) f.queue)
            synced)
        (λ off. synced)

  submit-IsRendered :
      (ids : List ℕ) (bound : ℕ) (f : Frame) (r : GlReq)
      → IsRendered f
      → IsRendered (submit guest_read garmin_gl_resync ids bound f r)
  unfolding submit frame_flush IsRendered
  submit-IsRendered ids bound f r h =
      let synced = sync_large_textures-IsRendered ids f h in
      if_elim IsRendered (is_swap r.op) (λ swap. synced)
        (λ other. if_elim IsRendered (op_is_query r.op) (λ query. h) (λ queued. h))

  submitted-IsRendered :
      (ids : List ℕ) (bound : ℕ) (f : Frame) (made : Option GlReq)
      → IsRendered f
      → IsRendered
          (elim made [ none ↦ f | some q ↦ submit guest_read garmin_gl_resync ids bound f q ])
  submitted-IsRendered ids bound f none h = h
  submitted-IsRendered ids bound f (some q) h = submit-IsRendered ids bound f q h

  texture_call-IsRendered :
      (unpack_alignment : ℕ) (ids : List ℕ) (bound : ℕ) (f : Frame) (c : TextureCall)
      → IsRendered f
      → IsRendered (texture_call unpack_alignment ids bound f c)
  unfolding texture_call
  texture_call-IsRendered unpack_alignment ids bound f (upload sub raw r) h =
      let (made, g) = tex_image guest_read unpack_alignment sub bound raw r f in
      submitted-IsRendered ids bound g made
        (tex_image-IsRendered guest_read unpack_alignment sub bound raw r f h)
  texture_call-IsRendered unpack_alignment ids bound f (target r) h =
      submit-IsRendered ids bound (render_to f (r.a 3)) r (render_to-IsRendered f (r.a 3) h)
  texture_call-IsRendered unpack_alignment ids bound f (delete names r) h =
      submit-IsRendered ids bound (forget_all f names) r (forget_all-IsRendered names f h)
  texture_call-IsRendered unpack_alignment ids bound f (generate names r) h =
      forget_all-IsRendered names (submit guest_read garmin_gl_resync ids bound f r)
        (submit-IsRendered ids bound f r h)
  texture_call-IsRendered unpack_alignment ids bound f (request r) h =
      submit-IsRendered ids bound f r h

  -- If no texture that the GPU renders into is marked to be read again from the guest's memory, none is
  -- after any uploads, targets, deletions, new names, other requests and the swaps among them.
  pub texture_calls-IsRendered :
      (cs : List (ℕ × List ℕ × ℕ × TextureCall)) (f : Frame)
      → IsRendered f
      → IsRendered (texture_calls f cs)
  unfolding texture_calls
  texture_calls-IsRendered [] f h = h
  texture_calls-IsRendered ((unpack_alignment, ids, bound, c) ∷ rest) f h =
      texture_calls-IsRendered rest (texture_call unpack_alignment ids bound f c)
        (texture_call-IsRendered unpack_alignment ids bound f c h)
