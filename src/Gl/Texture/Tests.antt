-- ===== src/Gl/Texture/Tests.antt =====
-- Tests of the textures' sources, and their theorem at concrete calls.
use garmin_gpsmap_emu.Prelude.{ℕ, ◌≡◌, refl, true, false, Option, none, some, List, [], ◌∷◌}
use garmin_gpsmap_emu.Prelude.{replicate, update}
use garmin_gpsmap_emu.Gl.Op.{GlOp, op_teximage2d, op_framebuffertexture2d, op_swapbuffers}
use garmin_gpsmap_emu.Gl.Frame.{GlReq, Frame, no_draw}
use garmin_gpsmap_emu.Gl.Client.{texel_bytes}
use garmin_gpsmap_emu.Gl.Texture.{image_bytes}
use garmin_gpsmap_emu.Gl.Texture.Rendered.{IsRendered}
use garmin_gpsmap_emu.Gl.Texture.Calls.{
  TextureCall, upload, target, request, texture_calls, texture_calls-IsRendered,
}

abbrev memory : ℕ → ℕ → Option (List ℕ)
memory at len = some (replicate len 7)

abbrev started : Frame
started = record {
  queue = [];
  executed = [];
  texsrcs = λ id. none;
  gpu_textures = λ id. false;
  bound_at_swap = 0;
}

abbrev req_of : GlOp → ℕ → GlReq
req_of op id = record { op = op; a = update (λ i. 0) 3 id; input = []; draw = no_draw }

-- A picture of 2 by 2 pixels at address 0x1000.
abbrev image : ℕ → ℕ
image = update (update (update (update (λ i. 0) 3 2) 4 2) 6 0x1908) 8 0x1000

-- Rows of three bytes are filled up to four.
padded : image_bytes 4 1 5 0x1907 0x1401 ≡ 20
unfolding image_bytes texel_bytes
padded = refl

abbrev calls : List (ℕ × List ℕ × ℕ × TextureCall)
calls =
    (4, [], 5, upload false image (req_of op_teximage2d 2))
    ∷ (4, 5 ∷ [], 5, target (req_of op_framebuffertexture2d 5))
    ∷ (4, 5 ∷ [], 5, upload false image (req_of op_teximage2d 2))
    ∷ (4, 5 ∷ [], 5, request (req_of op_swapbuffers 0))
    ∷ []

started-IsRendered : IsRendered started
unfolding IsRendered
started-IsRendered id g = refl

texture_calls-IsRendered_example : IsRendered (texture_calls memory true started calls)
texture_calls-IsRendered_example =
    texture_calls-IsRendered memory true calls started started-IsRendered

-- An alignment that is no power of two: 3 bytes are rounded to 5.
odd_alignment : image_bytes 3 1 1 0x1907 0x1401 ≡ 5
unfolding image_bytes texel_bytes
odd_alignment = refl
