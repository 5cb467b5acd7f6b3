-- ===== src/Gl/Palette/Tests.antt =====
-- Tests of the textures with a palette, and their theorem at a concrete texture.
use garmin_gpsmap_emu.Prelude.{◌+◌, ◌*◌, ◌≤◌, ◌<◌, ◌≡◌, ◌⊎◌, refl, ℕ, List, [], ◌∷◌, ◌++◌, length}
use garmin_gpsmap_emu.Prelude.{replicate, some}
use garmin_gpsmap_emu.Gl.Op.{op_compressedteximage2d}
use garmin_gpsmap_emu.Gl.Vertex.{append_some}
use garmin_gpsmap_emu.Gl.Frame.{GlReq, no_draw, req_push}
use garmin_gpsmap_emu.Gl.Palette.{decode_compressed, pal_len, pal_bpp, pal_bits, index_len}
use garmin_gpsmap_emu.Gl.Palette.{decoded, refused, outside, pixels, pixel, pal_type, expand}
use garmin_gpsmap_emu.Gl.Palette.{index_at, index_in, palette_decoded, pushed_pixels}

abbrev request : GlReq
request = record { op = op_compressedteximage2d; a = λ i. 0; input = []; draw = no_draw }

-- Sixteen colours of 16 bits, red and blue first, and the two pixels 1 and 0.
abbrev two_pixels : List ℕ
two_pixels = 0 ∷ 0xf8 ∷ 0x1f ∷ 0 ∷ (replicate 28 0 ++ (0x10 ∷ []))

blue_red : pixels 2 two_pixels 2 0 ≡ some (0 ∷ 0 ∷ 0xf8 ∷ 255 ∷ 0xf8 ∷ 0 ∷ 0 ∷ 255 ∷ [])
unfolding pixels pixel pal_len pal_bpp pal_bits pal_type expand index_at index_in append_some
blue_red = refl

-- The palette without the indices.
cut_short : decode_compressed request 0x8b92 2 1 (replicate 32 0) ≡ outside
unfolding decode_compressed pixels pixel pal_len pal_bpp pal_bits pal_type expand index_at index_in
    append_some pushed_pixels
cut_short = refl

palette_decoded_example :
    ((length two_pixels < pal_len 2) × (decode_compressed request 0x8b92 2 1 two_pixels ≡ refused))
    ⊎ ((pal_len 2 + index_len 2 2 ≤ length two_pixels)
        × ((bytes : List ℕ) × (decode_compressed request 0x8b92 2 1 two_pixels
              ≡ decoded ((req_push request bytes).0))
            × (length bytes ≡ 2 * 1 * 4)))
    ⊎ ((pal_len 2 ≤ length two_pixels)
        × (length two_pixels < pal_len 2 + index_len 2 2)
        × (decode_compressed request 0x8b92 2 1 two_pixels ≡ outside))
palette_decoded_example = palette_decoded request 0x8b92 2 1 two_pixels refl
