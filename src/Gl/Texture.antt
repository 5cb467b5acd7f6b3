-- ===== src/Gl/Texture.antt =====
-- The textures whose texels may change behind the renderer's back, qemu/hw/arm/garmin_gl.c: how
-- `gl_dispatch` keeps `texsrcs` and `gpu_textures` for uploads, for textures that are rendered into and
-- for names that are given out or deleted. Sizes are not negative.
pub mod Rendered
pub mod Calls
mod Tests
use garmin_gpsmap_emu.Prelude.{ℕ, ◌+◌, ◌-◌, ◌*◌, ◌^◌, bit_and, u64, nonzero, update}
use garmin_gpsmap_emu.Prelude.{Bool, true, false, not, ◌&&◌, if◌then◌else◌, ◌==◌, leb}
use garmin_gpsmap_emu.Prelude.{Option, none, some, List, [], ◌∷◌, replicate}
use garmin_gpsmap_emu.Gl.Client.{texel_bytes}
use garmin_gpsmap_emu.Gl.Frame.{GlReq, TexSrc, Frame, req_push, hash_bytes, whole_words}

-- `ROUND_UP` is QEMU's mask of the low digits, which rounds up to powers of two only; the alignment is
-- from 1 to 2 ^ 31 - 1.
unfoldable pub image_bytes : ℕ → ℕ → ℕ → ℕ → ℕ → ℕ
image_bytes unpack_alignment w h format type =
    let row = w * texel_bytes format type in
    bit_and (u64 (row + unpack_alignment - 1)) (2 ^ 64 - unpack_alignment) * h

-- What is known of an upload's source; `texels` are what was read.
unfoldable pub new_source : (ℕ → Bool) → ℕ → (ℕ → ℕ) → ℕ → List ℕ → TexSrc
new_source gpu_textures bound raw len texels = record {
  ptr = raw 8;
  w = raw 3;
  h = raw 4;
  fmt = raw 6;
  kind = raw 7;
  len = len;
  hash = hash_bytes (whole_words texels);
  dirty_check =
      leb (256 * 256) (raw 3 * raw 4) && not (raw 6 == 0x1906) && not (gpu_textures bound);
  synced_frame = false;
}

unfoldable pub forget : Frame → ℕ → Frame
forget f id = record f {
  texsrcs = update f.texsrcs id none;
  gpu_textures = update f.gpu_textures id false;
}

-- The names of a list that are deleted or given out.
unfoldable pub forget_all : Frame → List ℕ → Frame
forget_all f [] = f
forget_all f (id ∷ rest) = forget_all (forget f id) rest

-- The GPU takes over the content of a texture.
unfoldable pub render_to : Frame → ℕ → Frame
render_to f id =
    let source : Option TexSrc = elim (f.texsrcs id) [
      | none ↦ none
      | some t ↦ some (record t { dirty_check = false })
    ] in
    if nonzero id
    then record f {
      texsrcs = update f.texsrcs id source;
      gpu_textures = update f.gpu_textures id true;
    }
    else f

module _ (guest_read : ℕ → ℕ → Option (List ℕ)) (unpack_alignment : ℕ) where
  -- The texels, zeros where they cannot be read.
  unfoldable pub texels_of : ℕ → ℕ → List ℕ
  texels_of at len = elim (guest_read at len) [ none ↦ replicate len 0 | some bytes ↦ bytes ]

  -- `glTexImage2D`, or `glTexSubImage2D` where `sub`: the request, if there is one, and the sources.
  unfoldable pub tex_image : Bool → ℕ → (ℕ → ℕ) → GlReq → Frame → Option GlReq × Frame
  tex_image sub bound raw r f =
      let len = image_bytes unpack_alignment (raw 3) (raw 4) (raw 6) (raw 7) in
      let texels = texels_of (raw 8) len in
      let named = record r { a = update (update r.a 9 unpack_alignment) 10 bound } in
      if nonzero (raw 8) && nonzero len
      then (
        some ((req_push named texels).0),
        if not sub && raw 1 == 0 && nonzero bound
            then record f {
              texsrcs =
                  update f.texsrcs bound (some (new_source f.gpu_textures bound raw len texels));
            }
            else f,
      )
      else if sub
      then (none, f)
      else (
        some named,
        if nonzero bound then record f { texsrcs = update f.texsrcs bound none } else f,
      )
