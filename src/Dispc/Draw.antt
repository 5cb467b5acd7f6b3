-- ===== src/Dispc/Draw.antt =====
-- The scan-out of the display controller, `dispc_draw` of qemu/hw/arm/garmin_gpsmap.c. The guest's
-- memory is given by its bytes, the surface by its 32-bit words, `stride` of them to a row.
use garmin_gpsmap_emu.Prelude.{ℕ, zero, suc, ◌+◌, ◌-◌, ◌*◌, ◌^◌}
use garmin_gpsmap_emu.Prelude.{bit_and, bit_or, u64, shl, shr, has}
use garmin_gpsmap_emu.Prelude.{Bool, false, not, ◌&&◌, ◌||◌, if◌then◌else◌, ◌==◌, ltb}
use garmin_gpsmap_emu.Prelude.{update}
use garmin_gpsmap_emu.Dispc.{Dispc, reg}

abbrev pub width : Dispc → ℕ
width s = bit_and (reg s 0x8c) 0x7ff + 1

abbrev pub height : Dispc → ℕ
height s = bit_and (shr (reg s 0x8c) 16) 0x7ff + 1

unfoldable pub bytes_per_pixel : ℕ → ℕ
bytes_per_pixel fmt = if fmt == 0x6 then 2 else if fmt == 0x8 then 3 else 4

-- A pixel from its bytes.
unfoldable pub pixel : ℕ → (ℕ → ℕ) → ℕ
pixel bpp px =
    if bpp == 2
    then (let p = bit_or (px 0) (shl (px 1) 8) in
        bit_or (bit_or (shl (bit_and (shr p 11) 0x1f) 19) (shl (bit_and (shr p 5) 0x3f) 10))
          (shl (bit_and p 0x1f) 3))
    else bit_or (bit_or (px 0) (shl (px 1) 8)) (shl (px 2) 16)

-- Columns `x` to `x + n - 1` of a row of the surface, which starts at `d`.
unfoldable pub draw_row : ℕ → ℕ → (ℕ → ℕ) → ℕ → ℕ → (ℕ → ℕ) → ℕ → ℕ
draw_row zero x line bpp d surf = surf
draw_row (suc n) x line bpp d surf =
    draw_row n (x + 1) line bpp d (update surf (d + x) (pixel bpp (λ k. line (x * bpp + k))))

-- `row_inc > 0 ? row_inc - 1 : 0` of a signed word.
unfoldable pub row_gap : ℕ → ℕ
row_gap row_inc = if ltb row_inc (2 ^ 31) then row_inc - 1 else 0

-- Rows `y` to `y + n - 1`; `src` is the address of the row's first byte.
unfoldable pub draw_rows : ℕ → ℕ → (ℕ → ℕ) → ℕ → ℕ → ℕ → ℕ → ℕ → (ℕ → ℕ) → ℕ → ℕ
draw_rows zero y memory src w bpp gap stride surf = surf
draw_rows (suc n) y memory src w bpp gap stride surf =
    draw_rows n (y + 1) memory (u64 (src + w * bpp + gap)) w bpp gap stride
      (draw_row w 0 (λ k. memory (src + k)) bpp (y * stride) surf)

abbrev pub is_on : Dispc → Bool
is_on s = has (reg s 0xa0) 1 && has (bit_or (reg s 0x40) (reg s 0x238)) 1

-- The state and the surface; `stride` gives the row length of a surface of a width, and a surface
-- that is resized starts as `fresh`.
unfoldable pub draw : (ℕ → ℕ) → (ℕ → ℕ) → (ℕ → ℕ) → Dispc → (ℕ → ℕ) → Dispc × (ℕ → ℕ)
draw memory stride fresh s surf =
    let w = width s in
    let h = height s in
    let bpp = bytes_per_pixel (bit_and (shr (reg s 0xa0) 1) 0xf) in
    let resized = not (w == s.cur_w) || not (h == s.cur_h) in
    let target = if resized then fresh else surf in
    if not (is_on s) then (s, surf) else (
      record s { cur_w = w; cur_h = h },
      draw_rows h 0 memory (reg s 0x80) w bpp (row_gap (reg s 0xac)) (stride w) target,
    )

unfoldable pub gfx_update : (ℕ → ℕ) → (ℕ → ℕ) → (ℕ → ℕ) → Dispc → (ℕ → ℕ) → Dispc × (ℕ → ℕ)
gfx_update memory stride fresh s surf =
    let (t, drawn) = draw memory stride fresh s surf in (record t { invalidate = false }, drawn)
