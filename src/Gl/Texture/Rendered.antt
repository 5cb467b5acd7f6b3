-- ===== src/Gl/Texture/Rendered.antt =====
-- Textures that the GPU renders into, qemu/hw/arm/garmin_gl.c: they are never read again from the guest.
use garmin_gpsmap_emu.Prelude.{
  arith, ℕ, ◌≡◌, refl, sym, ap, ◌∙◌, nonzero, update, ◌==◌, ==_iff, Bool-cases, inl, inr,
}
use garmin_gpsmap_emu.Prelude.{Bool, true, false, not, ◌&&◌, ◌||◌, if_elim}
use garmin_gpsmap_emu.Prelude.{Option, none, some, List, [], ◌∷◌, ◌++◌}
use garmin_gpsmap_emu.Gl.Frame.{
  hash_bytes, whole_words, GlReq, TexSrc, Frame, sync_queue, needs_sync, reread, mark_synced,
}
use garmin_gpsmap_emu.Gl.Frame.{resync_one, resync}
use garmin_gpsmap_emu.Gl.Texture.{
  new_source, forget, forget_all, render_to, tex_image, image_bytes, texels_of,
}

-- The texels of a source may be read again.
abbrev pub watched : Option TexSrc → Bool
watched none = false
watched (some t) = t.dirty_check

unfoldable pub IsRendered : Frame → Type 0
IsRendered f = (id : ℕ) → f.gpu_textures id ≡ true → watched (f.texsrcs id) ≡ false

-- The source of one texture is changed.
update-watched :
    (gpu : ℕ → Bool) (tex : ℕ → Option TexSrc) (id : ℕ) (v : Option TexSrc)
    → ((i : ℕ) → gpu i ≡ true → watched (tex i) ≡ false)
    → (gpu id ≡ true → watched v ≡ false)
    → (i : ℕ) → gpu i ≡ true
    → watched (update tex id v i) ≡ false
update-watched gpu tex id v h k i g = elim (Bool-cases (i == id)) [
  | inl here ↦ rw here (k (sym (ap gpu ((==_iff i id).0 here)) ∙ g))
  | inr elsewhere ↦ rw elsewhere (h i g)
]

forget-IsRendered : (f : Frame) (id : ℕ) → IsRendered f → IsRendered (forget f id)
unfolding forget IsRendered
forget-IsRendered f id h i g = elim (Bool-cases (i == id)) [
  | inl here ↦ rw here refl
  | inr elsewhere ↦ rw elsewhere (h i (rw elsewhere at g))
]

pub forget_all-IsRendered :
    (ids : List ℕ) (f : Frame) → IsRendered f → IsRendered (forget_all f ids)
unfolding forget_all
forget_all-IsRendered [] f h = h
forget_all-IsRendered (id ∷ rest) f h =
    forget_all-IsRendered rest (forget f id) (forget-IsRendered f id h)

-- What `render_to` makes of a source is not read again.
stop-watched :
    (v : Option TexSrc)
    → watched (elim v [ none ↦ none | some t ↦ some (record t { dirty_check = false }) ]) ≡ false
stop-watched none = refl
stop-watched (some t) = refl

pub render_to-IsRendered : (f : Frame) (id : ℕ) → IsRendered f → IsRendered (render_to f id)
unfolding render_to IsRendered
render_to-IsRendered f id h i g = elim (Bool-cases (nonzero id)) [
  | inl named ↦ elim (Bool-cases (i == id)) [
    | inl here ↦ rw (named, here) (stop-watched (f.texsrcs id))
    | inr elsewhere ↦ rw (named, elsewhere) (h i (rw (named, elsewhere) at g))
  ]
  | inr unnamed ↦ rw unnamed (h i (rw unnamed at g))
]

new_source-watched :
    (gpu : ℕ → Bool) (bound : ℕ) (raw : ℕ → ℕ) (len : ℕ) (texels : List ℕ)
    → gpu bound ≡ true
    → watched (some (new_source gpu bound raw len texels)) ≡ false
unfolding new_source
new_source-watched gpu bound raw len texels g = rw g (ground arith)

-- What holds of both branches of a look-up.
option_elim :
    {A B : Type 0} (P : B → Type 0) (o : Option A) (x : B) (f : A → B)
    → P x
    → ((a : A) → o ≡ some a → P (f a))
    → P (elim o [ none ↦ x | some a ↦ f a ])
option_elim P none x f p q = p
option_elim P (some a) x f p q = q a refl

set-IsRendered :
    (f : Frame) (id : ℕ) (v : Option TexSrc) (queue : List GlReq)
    → IsRendered f
    → (f.gpu_textures id ≡ true → watched v ≡ false)
    → IsRendered (record f { texsrcs = update f.texsrcs id v; queue = queue })
unfolding IsRendered
set-IsRendered f id v queue h k = update-watched f.gpu_textures f.texsrcs id v h k

queue-IsRendered :
    (f : Frame) (queue done : List GlReq)
    → IsRendered f
    → IsRendered (record f { queue = queue; executed = done })
unfolding IsRendered
queue-IsRendered f queue done h = h

-- A source that takes the place of one with the same `dirty_check`.
same-IsRendered :
    (f : Frame) (id : ℕ) (t u : TexSrc) (queue : List GlReq)
    → IsRendered f
    → f.texsrcs id ≡ some t
    → u.dirty_check ≡ t.dirty_check
    → IsRendered (record f { texsrcs = update f.texsrcs id (some u); queue = queue })
unfolding IsRendered
same-IsRendered f id t u queue h there same =
    update-watched f.gpu_textures f.texsrcs id (some u) h
      (λ g. same ∙ sym (ap watched there) ∙ h id g)

module _ (guest_read : ℕ → ℕ → Option (List ℕ)) where
  pub tex_image-IsRendered :
      (unpack_alignment : ℕ) (sub : Bool) (bound : ℕ) (raw : ℕ → ℕ) (r : GlReq) (f : Frame)
      → IsRendered f
      → IsRendered (tex_image guest_read unpack_alignment sub bound raw r f).1
  unfolding tex_image
  tex_image-IsRendered unpack_alignment sub bound raw r f h =
      let len = image_bytes unpack_alignment (raw 3) (raw 4) (raw 6) (raw 7) in
      let texels = texels_of guest_read unpack_alignment (raw 8) len in
      let source = new_source f.gpu_textures bound raw len texels in
      if_elim (λ (p : Option GlReq × Frame). IsRendered p.1) (nonzero (raw 8) && nonzero len)
        (λ filled.
          if_elim IsRendered (not sub && raw 1 == 0 && nonzero bound)
            (λ kept.
              set-IsRendered f bound (some source) f.queue h
                (new_source-watched f.gpu_textures bound raw len texels))
            (λ dropped. h))
        (λ empty.
          if_elim (λ (p : Option GlReq × Frame). IsRendered p.1) sub (λ part. h)
            (λ whole.
              if_elim IsRendered (nonzero bound)
                (λ named. set-IsRendered f bound none f.queue h (λ g. refl)) (λ unnamed. h)))

  pub sync_queue-IsRendered :
      (q : List GlReq) (f : Frame) → IsRendered f → IsRendered (sync_queue guest_read f q)
  unfolding sync_queue mark_synced
  sync_queue-IsRendered [] f h = h
  sync_queue-IsRendered (e ∷ rest) f h =
      let fresh = reread guest_read e in
      let queue = f.queue ++ (fresh ∷ []) in
      sync_queue-IsRendered rest _ (
        if_elim IsRendered (needs_sync guest_read f e)
          (λ read.
            option_elim
              (λ (tex : ℕ → Option TexSrc). IsRendered (record f { queue = queue; texsrcs = tex }))
              (f.texsrcs (fresh.a 10)) f.texsrcs _ (queue-IsRendered f queue f.executed h)
              (λ t there. same-IsRendered f (fresh.a 10) t _ queue h there refl))
          (λ kept. queue-IsRendered f (f.queue ++ (e ∷ [])) f.executed h))

  resync_one-IsRendered :
      (f : Frame) (id : ℕ) → IsRendered f → IsRendered (resync_one guest_read f id)
  unfolding resync_one
  resync_one-IsRendered f id h = option_elim IsRendered (f.texsrcs id) f _ h (λ t there.
      if_elim IsRendered (not t.dirty_check || f.gpu_textures id) (λ skip. h)
        (λ check.
          if_elim IsRendered t.synced_frame
            (λ synced. same-IsRendered f id t _ f.queue h there refl)
            (λ old. option_elim IsRendered (guest_read t.ptr t.len) f _ h (λ bytes found.
              if_elim IsRendered (hash_bytes (whole_words bytes) == t.hash) (λ same. h)
                (λ changed. same-IsRendered f id t _ _ h there refl)))))

  pub resync-IsRendered :
      (ids : List ℕ) (f : Frame) → IsRendered f → IsRendered (resync guest_read f ids)
  unfolding resync
  resync-IsRendered [] f h = h
  resync-IsRendered (id ∷ rest) f h =
      resync-IsRendered rest (resync_one guest_read f id) (resync_one-IsRendered f id h)
