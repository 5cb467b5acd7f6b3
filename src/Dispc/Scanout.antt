-- ===== src/Dispc/Scanout.antt =====
-- What the scan-out of qemu/hw/arm/garmin_gpsmap.c leaves on the surface.
use garmin_gpsmap_emu.Prelude.{ℕ, zero, suc, ◌+◌, ◌*◌, ◌/◌, ◌%◌, ◌^◌, ◌≤◌, ◌<◌}
use garmin_gpsmap_emu.Prelude.{bit_and, bit_or, u64, shl, shr}
use garmin_gpsmap_emu.Prelude.{◌≡◌, refl, sym, ap, ◌∙◌, arith}
use garmin_gpsmap_emu.Prelude.{true, not, ◌||◌, if◌then◌else◌, ◌==◌}
use garmin_gpsmap_emu.Prelude.{update}
use native.Mathlib.Decide.{ℕ_discrete}
use garmin_gpsmap_emu.Prelude.Bits.{bit_and_mask}
use garmin_gpsmap_emu.Prelude.Fields.{bit_or-disjoint, bit_or-disjoint_low}
use garmin_gpsmap_emu.Dispc.{Dispc, reg}
use garmin_gpsmap_emu.Dispc.Draw.{
  width, height, bytes_per_pixel, pixel, draw_row, row_gap, draw_rows, is_on, draw,
}

abbrev bpp_of : Dispc → ℕ
bpp_of s = bytes_per_pixel (bit_and (shr (reg s 0xa0) 1) 0xf)

suc_mul : (n x : ℕ) → suc n * x ≡ x + n * x
suc_mul n x = omega arith

row_left :
    (n x : ℕ) (line : ℕ → ℕ) (bpp d : ℕ) (surf : ℕ → ℕ) (q : ℕ)
    → q < d + x
    → draw_row n x line bpp d surf q ≡ surf q
unfolding draw_row
row_left zero x line bpp d surf q h = refl
row_left (suc n) x line bpp d surf q h =
    row_left n (x + 1) line bpp d (update surf (d + x) (pixel bpp (λ k. line (x * bpp + k)))) q
      (omega arith)
    ∙ ground arith

row_drawn :
    (n x : ℕ) (line : ℕ → ℕ) (bpp d : ℕ) (surf : ℕ → ℕ) (c : ℕ)
    → x ≤ c
    → c < x + n
    → draw_row n x line bpp d surf (d + c) ≡ pixel bpp (λ k. line (c * bpp + k))
unfolding draw_row
row_drawn zero x line bpp d surf c a b = absurd (omega arith)
row_drawn (suc n) x line bpp d surf c a b =
    let t = update surf (d + x) (pixel bpp (λ k. line (x * bpp + k))) in
    elim (ℕ_discrete c x) [
      | yes e ↦ rw e (row_left n (x + 1) line bpp d t (d + x) (omega arith) ∙ ground arith)
      | no e ↦ row_drawn n (x + 1) line bpp d t c (omega arith) (omega arith)
    ]

rows_above :
    (n y : ℕ) (memory : ℕ → ℕ) (src w bpp gap stride : ℕ) (surf : ℕ → ℕ) (q : ℕ)
    → q < y * stride
    → draw_rows n y memory src w bpp gap stride surf q ≡ surf q
unfolding draw_rows
rows_above zero y memory src w bpp gap stride surf q h = refl
rows_above (suc n) y memory src w bpp gap stride surf q h =
    let t = draw_row w 0 (λ k. memory (src + k)) bpp (y * stride) surf in
    rows_above n (y + 1) memory (u64 (src + w * bpp + gap)) w bpp gap stride t q (omega arith)
    ∙ row_left w 0 (λ k. memory (src + k)) bpp (y * stride) surf q (omega arith)

rows_drawn :
    (n y : ℕ) (memory : ℕ → ℕ) (src w bpp gap stride : ℕ) (surf : ℕ → ℕ) (r c : ℕ)
    → w ≤ stride
    → r < n
    → c < w
    → src + n * (w * bpp + gap) < 2 ^ 64
    → draw_rows n y memory src w bpp gap stride surf ((y + r) * stride + c)
      ≡ pixel bpp (λ k. memory (src + r * (w * bpp + gap) + (c * bpp + k)))
unfolding draw_rows
rows_drawn zero y memory src w bpp gap stride surf r c a b d e = absurd (omega arith)
rows_drawn (suc n) y memory src w bpp gap stride surf zero c a b d e =
    let t = draw_row w 0 (λ k. memory (src + k)) bpp (y * stride) surf in
    let at : (y + 0) * stride + c ≡ y * stride + c =
      rw (let e : y + 0 ≡ y = omega arith in e) refl in
    let from : src + 0 * (w * bpp + gap) ≡ src = omega arith in
    rw (at, from)
      (rows_above n (y + 1) memory (u64 (src + w * bpp + gap)) w bpp gap stride t (y * stride + c)
          (omega (arith, suc_mul y stride))
        ∙ row_drawn w 0 (λ k. memory (src + k)) bpp (y * stride) surf c (omega arith) (omega arith))
rows_drawn (suc n) y memory src w bpp gap stride surf (suc r) c a b d e =
    let t = draw_row w 0 (λ k. memory (src + k)) bpp (y * stride) surf in
    let m = suc_mul n (w * bpp + gap) in
    let next : u64 (src + w * bpp + gap) ≡ src + (w * bpp + gap) = omega (arith, m) in
    let at : (y + suc r) * stride + c ≡ (y + 1 + r) * stride + c =
      ap (λ (z : ℕ). z * stride + c) (let e : y + suc r ≡ y + 1 + r = omega arith in e) in
    let from : src + suc r * (w * bpp + gap) ≡ src + (w * bpp + gap) + r * (w * bpp + gap) =
      omega (arith, suc_mul r (w * bpp + gap)) in
    rw (at, from, next)
      (rows_drawn n (y + 1) memory (src + (w * bpp + gap)) w bpp gap stride t r c a (omega arith) d
        (omega (arith, m)))

draw_lem :
    (memory stride fresh : ℕ → ℕ) (s : Dispc) (surf : ℕ → ℕ)
    → is_on s ≡ true
    → (draw memory stride fresh s surf).1
      ≡ draw_rows
          (height s)
          0
          memory
          (reg s 0x80)
          (width s)
          (bpp_of s)
          (row_gap (reg s 0xac))
          (stride (width s))
          (if not (width s == s.cur_w) || not (height s == s.cur_h) then fresh else surf)
unfolding draw
draw_lem memory stride fresh s surf on = rw on refl

-- A word of the surface shows the pixel at its place of the framebuffer.
draw_shows :
    (memory stride fresh : ℕ → ℕ) (s : Dispc) (surf : ℕ → ℕ) (r c : ℕ)
    → is_on s ≡ true
    → width s ≤ stride (width s)
    → r < height s
    → c < width s
    → reg s 0x80 + height s * (width s * bpp_of s + row_gap (reg s 0xac)) < 2 ^ 64
    → (draw memory stride fresh s surf).1 (r * stride (width s) + c)
      ≡ pixel (bpp_of s) (λ k.
        memory (reg s 0x80 + r * (width s * bpp_of s + row_gap (reg s 0xac)) + (c * bpp_of s + k)))
draw_shows memory stride fresh s surf r c on a b d e =
    let zero_add : 0 + r ≡ r = omega arith in
    let target = if not (width s == s.cur_w) || not (height s == s.cur_h) then fresh else surf in
    let shown =
      draw_rows (height s) 0 memory (reg s 0x80) (width s) (bpp_of s) (row_gap (reg s 0xac))
        (stride (width s)) target in
    ap (λ f. f (r * stride (width s) + c)) (draw_lem memory stride fresh s surf on)
    ∙ ap (λ (z : ℕ). shown (z * stride (width s) + c)) (sym zero_add)
    ∙ rows_drawn (height s) 0 memory (reg s 0x80) (width s) (bpp_of s) (row_gap (reg s 0xac))
        (stride (width s)) target r c a b d e

-- The three fields of a pixel, moved to the tops of their bytes.
fields :
    (p r g b : ℕ)
    → r < 32
    → g < 64
    → b < 32
    → p ≡ r * 2048 + g * 32 + b
    → bit_or
        (bit_or (shl (bit_and (shr p 11) 0x1f) 19) (shl (bit_and (shr p 5) 0x3f) 10))
        (shl (bit_and p 0x1f) 3)
      ≡ r * 8 * 65536 + g * 4 * 256 + b * 8
fields p r g b hr hg hb e =
    let red : bit_and (shr p 11) 0x1f ≡ r = omega (arith, bit_and_mask 5 (shr p 11)) in
    let green : bit_and (shr p 5) 0x3f ≡ g = omega (arith, bit_and_mask 6 (shr p 5)) in
    let blue : bit_and p 0x1f ≡ b = omega (arith, bit_and_mask 5 p) in
    let high : bit_or (r * 2 ^ 19) (g * 2 ^ 10) ≡ (r * 2 ^ 9 + g) * 2 ^ 10 =
      bit_or-disjoint 19 r (g * 2 ^ 10) (omega arith) ∙ omega arith in
    rw (red, green, blue, high)
      (bit_or-disjoint 10 (r * 2 ^ 9 + g) (b * 2 ^ 3) (omega arith) ∙ omega arith)

pixel-rgb16 :
    (px : ℕ → ℕ) (r g b : ℕ)
    → r < 32
    → g < 64
    → b < 32
    → px 0 ≡ (r * 2048 + g * 32 + b) % 256
    → px 1 ≡ (r * 2048 + g * 32 + b) / 256
    → pixel 2 px ≡ r * 8 * 65536 + g * 4 * 256 + b * 8
unfolding pixel
pixel-rgb16 px r g b hr hg hb lo hi =
    fields (bit_or (px 0) (shl (px 1) 8)) r g b hr hg hb
      (bit_or-disjoint_low 8 (px 1) (px 0) (omega arith) ∙ omega arith)

-- Where the framebuffer holds a pixel of two bytes.
abbrev pub rgb16_at : Dispc → ℕ → ℕ → ℕ
rgb16_at s x y = reg s 0x80 + y * (width s * 2 + row_gap (reg s 0xac)) + x * 2

-- When the pipeline and an LCD channel are on, the format is RGB16 and a surface row holds the width,
-- the word of the surface in row `y` and column `x` has the 5 bits of red, 6 of green and 5 of blue at
-- the tops of its red, green and blue bytes that the two bytes at that place of the framebuffer hold,
-- low byte first: rows start at GFX_BA0, each the pixels of a row and the gap of GFX_ROW_INC behind
-- the one above. The framebuffer ends below 2^64.
pub draw-rgb16 :
    (memory stride fresh : ℕ → ℕ) (s : Dispc) (surf : ℕ → ℕ) (x y r g b : ℕ)
    → is_on s ≡ true
    → bit_and (shr (reg s 0xa0) 1) 0xf ≡ 6
    → width s ≤ stride (width s)
    → y < height s
    → x < width s
    → reg s 0x80 + height s * (width s * 2 + row_gap (reg s 0xac)) < 2 ^ 64
    → r < 32
    → g < 64
    → b < 32
    → memory (rgb16_at s x y) ≡ (r * 2048 + g * 32 + b) % 256
    → memory (rgb16_at s x y + 1) ≡ (r * 2048 + g * 32 + b) / 256
    → (draw memory stride fresh s surf).1 (y * stride (width s) + x)
      ≡ r * 8 * 65536 + g * 4 * 256 + b * 8
draw-rgb16 memory stride fresh s surf x y r g b on format fits hy hx ends hr hg hb lo hi =
    let two : bpp_of s ≡ 2 = unfold bytes_per_pixel in rw format refl in
    let line = reg s 0x80 + y * (width s * 2 + row_gap (reg s 0xac)) in
    let low : line + (x * 2 + 0) ≡ rgb16_at s x y = omega arith in
    let high : line + (x * 2 + 1) ≡ rgb16_at s x y + 1 = omega arith in
    draw_shows memory stride fresh s surf y x on fits hy hx (rw two ends)
    ∙ rw two (
        pixel-rgb16 (λ k. memory (line + (x * 2 + k))) r g b hr hg hb (ap memory low ∙ lo)
          (ap memory high ∙ hi))
