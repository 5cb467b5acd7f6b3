-- ===== src/Gl/Palette.antt =====
-- Textures with a palette in qemu/hw/arm/garmin_gl.c, `decode_compressed`: a palette and after it the
-- index of each pixel, in 4 or 8 bits, become four bytes a pixel. Sizes are not negative.
mod Tests
use garmin_gpsmap_emu.Prelude.{
  arith, ℕ, zero, suc, ◌+◌, ◌-◌, ◌*◌, ◌/◌, ◌^◌, ◌≤◌, ◌<◌, ◌≡◌, refl, ap, ◌∙◌,
}
use garmin_gpsmap_emu.Prelude.{bit_and, bit_or, shl, shr, nonzero, inl, inr, Bool-cases}
use garmin_gpsmap_emu.Prelude.{
  true, false, ◌&&◌, if◌then◌else◌, ◌==◌, ltb, leb, ltb→lt, lt→ltb, leb→le, ◌⊎◌,
}
use garmin_gpsmap_emu.Prelude.{
  Option, none, some, List, [], ◌∷◌, ◌++◌, length, get_or, length-append,
}
use garmin_gpsmap_emu.Gl.Frame.{GlReq, req_push}
use garmin_gpsmap_emu.Gl.Vertex.{append_some}

-- The format 0x8b90 + k: bytes of a palette's entry, bits of an index, and type of an entry.
unfoldable pub pal_bpp : ℕ → ℕ
pal_bpp k = get_or (3 ∷ 4 ∷ 2 ∷ 2 ∷ 2 ∷ 3 ∷ 4 ∷ 2 ∷ 2 ∷ 2 ∷ []) k 0

unfoldable pub pal_bits : ℕ → ℕ
pal_bits k = if ltb k 5 then 4 else 8

unfoldable pub pal_type : ℕ → ℕ
pal_type k =
    get_or
      (0x1401 ∷ 0x1401 ∷ 0x8363 ∷ 0x8033 ∷ 0x8034 ∷ 0x1401 ∷ 0x1401 ∷ 0x8363 ∷ 0x8033 ∷ 0x8034 ∷ [])
      k 0

unfoldable pub pal_len : ℕ → ℕ
pal_len k = 2 ^ pal_bits k * pal_bpp k

-- Red, green, blue and opacity of an entry from its bytes.
unfoldable pub expand : ℕ → ℕ → (ℕ → ℕ) → List ℕ
expand type bpp c =
    let p = bit_or (c 0) (shl (c 1) 8) in
    if type == 0x1401
    then c 0 ∷ c 1 ∷ c 2 ∷ (if bpp == 4 then c 3 else 255) ∷ []
    else if type == 0x8363
    then shl (shr p 11) 3 ∷ shl (bit_and (shr p 5) 0x3f) 2 ∷ shl (bit_and p 0x1f) 3 ∷ 255 ∷ []
    else if type == 0x8033
    then shr p 12 * 17
      ∷ bit_and (shr p 8) 0xf * 17
      ∷ bit_and (shr p 4) 0xf * 17
      ∷ bit_and p 0xf * 17
      ∷ []
    else if type == 0x8034
    then shl (shr p 11) 3
      ∷ shl (bit_and (shr p 6) 0x1f) 3
      ∷ shl (bit_and (shr p 1) 0x1f) 3
      ∷ (if nonzero (bit_and p 1) then 255 else 0)
      ∷ []
    else 0 ∷ 0 ∷ 0 ∷ 255 ∷ []

-- Where the index of pixel `i` lies after the palette, and the index in its byte.
unfoldable pub index_at : ℕ → ℕ → ℕ
index_at k i = if pal_bits k == 4 then i / 2 else i

unfoldable pub index_in : ℕ → ℕ → ℕ → ℕ
index_in k i byte =
    if pal_bits k == 4
    then bit_and (shr byte (if nonzero (bit_and i 1) then 0 else 4)) 0xf
    else byte

-- The four bytes of a pixel, unless its index does not lie in the data.
unfoldable pub pixel : ℕ → List ℕ → ℕ → Option (List ℕ)
pixel k src i =
    let at = pal_len k + index_at k i in
    let e = index_in k i (get_or src at 0) in
    if ltb at (length src)
    then some (expand (pal_type k) (pal_bpp k) (λ j. get_or src (e * pal_bpp k + j) 0))
    else none

-- The loop over `n` pixels from `i` on.
unfoldable pub pixels : ℕ → List ℕ → ℕ → ℕ → Option (List ℕ)
pixels k src zero i = some []
pixels k src (suc n) i = append_some (pixel k src i) (pixels k src n (suc i))

unfoldable pub grey : ℕ → List ℕ
grey zero = []
grey (suc n) = 0x80 ∷ 0x80 ∷ 0x80 ∷ 0xff ∷ grey n

-- What becomes of the data: a request, the answer false, or a read outside the data.
pub data Decoded : Type 0 where
  decoded : GlReq → Decoded
  refused : Decoded
  outside : Decoded

unfoldable pub pushed_pixels : GlReq → Option (List ℕ) → Decoded
pushed_pixels r none = outside
pushed_pixels r (some bytes) = decoded ((req_push r bytes).0)

unfoldable pub decode_compressed : GlReq → ℕ → ℕ → ℕ → List ℕ → Decoded
decode_compressed r fmt w h src =
    let k = fmt - 0x8b90 in
    if leb 0x8b90 fmt && leb fmt 0x8b99
    then (if ltb (length src) (pal_len k)
        then refused
        else pushed_pixels r (pixels k src (w * h) 0))
    else decoded ((req_push r (grey (w * h))).0)

-- The bytes that the indices of `n` pixels take.
abbrev pub index_len : ℕ → ℕ → ℕ
index_len k n = if ltb k 5 then (n + 1) / 2 else n

expand-length : (type bpp : ℕ) (c : ℕ → ℕ) → length (expand type bpp c) ≡ 4
unfolding expand
expand-length type bpp c = ground arith

index_at-inside : (k n i m : ℕ) → i + suc n ≡ m → index_at k i < index_len k m
unfolding index_at pal_bits
index_at-inside k n i m e = ground arith

index_len-suc : (k i : ℕ) → index_len k (suc i) ≡ index_at k i + 1
unfolding index_at pal_bits
index_len-suc k i = ground arith

pixel-inside :
    (k : ℕ) (src : List ℕ) (i : ℕ)
    → pal_len k + index_at k i < length src
    → (px : List ℕ) × (pixel k src i ≡ some px) × (length px ≡ 4)
unfolding pixel
pixel-inside k src i h =
    let inside = lt→ltb (pal_len k + index_at k i) (length src) h in
    (
      expand (pal_type k) (pal_bpp k) (λ j.
          get_or src (index_in k i (get_or src (pal_len k + index_at k i) 0) * pal_bpp k + j) 0),
      rw inside refl,
      expand-length (pal_type k) (pal_bpp k) _,
    )

pixel-outside :
    (k : ℕ) (src : List ℕ) (i : ℕ)
    → ltb (pal_len k + index_at k i) (length src) ≡ false
    → pixel k src i ≡ none
unfolding pixel
pixel-outside k src i h = rw h refl

append_some-none : (xs : Option (List ℕ)) → append_some xs none ≡ none
unfolding append_some
append_some-none none = refl
append_some-none (some xs) = refl

pixels-inside :
    (k : ℕ) (src : List ℕ) (n i : ℕ)
    → pal_len k + index_len k (i + n) ≤ length src
    → (bytes : List ℕ) × (pixels k src n i ≡ some bytes) × (length bytes ≡ n * 4)
unfolding pixels append_some
pixels-inside k src zero i h = ([], refl, omega arith)
pixels-inside k src (suc n) i h =
    let less = index_at-inside k n i (i + suc n) refl in
    let next : index_len k (i + suc n) ≡ index_len k (suc i + n) = ap (index_len k) (omega arith) in
    let (px, here, four) = pixel-inside k src i (omega arith) in
    let (bytes, there, all) = pixels-inside k src n (suc i) (omega arith) in
    (px ++ bytes, rw (here, there) refl, length-append px bytes ∙ omega arith)

pixels-outside :
    (k : ℕ) (src : List ℕ) (n i : ℕ)
    → pal_len k + index_len k i ≤ length src
    → length src < pal_len k + index_len k (i + n)
    → pixels k src n i ≡ none
unfolding pixels append_some
pixels-outside k src zero i g h =
    let same : index_len k (i + 0) ≡ index_len k i = ap (index_len k) (omega arith) in
    absurd (omega arith)
pixels-outside k src (suc n) i g h =
    let next : index_len k (i + suc n) ≡ index_len k (suc i + n) = ap (index_len k) (omega arith) in
    let more = index_len-suc k i in
    elim (Bool-cases (ltb (pal_len k + index_at k i) (length src))) [
      | inl inside ↦
          let less = ltb→lt _ _ inside in
          rw (pixels-outside k src n (suc i) (omega arith) (omega arith))
            (append_some-none (pixel k src i))
      | inr beyond ↦ rw (pixel-outside k src i beyond) refl
    ]

index_len-zero : (k : ℕ) → index_len k 0 ≡ 0
index_len-zero k = ground arith

not_ltb : (a b : ℕ) → ltb a b ≡ false → b ≤ a
not_ltb a b e = ground arith

not_leb : (a b : ℕ) → leb a b ≡ false → b < a
not_leb a b e = ground arith

-- For a texture with a palette: data that does not hold the palette is refused; data that also holds
-- the index of each pixel is decoded to four bytes a pixel after what the request has; of data that
-- holds the palette and not all the indices the loop reads bytes that are not there.
pub palette_decoded :
    (r : GlReq) (fmt w h : ℕ) (src : List ℕ)
    → leb 0x8b90 fmt && leb fmt 0x8b99 ≡ true
    → let k = fmt - 0x8b90 in
      ((length src < pal_len k) × (decode_compressed r fmt w h src ≡ refused))
      ⊎ ((pal_len k + index_len k (w * h) ≤ length src)
          × ((bytes : List ℕ) × (decode_compressed r fmt w h src ≡ decoded ((req_push r bytes).0))
              × (length bytes ≡ w * h * 4)))
      ⊎ ((pal_len k ≤ length src)
          × (length src < pal_len k + index_len k (w * h))
          × (decode_compressed r fmt w h src ≡ outside))
unfolding decode_compressed pushed_pixels
palette_decoded r fmt w h src e =
    let k = fmt - 0x8b90 in
    let from_start : index_len k (0 + w * h) ≡ index_len k (w * h) =
      ap (index_len k) (omega arith) in
    let start : index_len k 0 ≡ 0 = index_len-zero k in
    elim (Bool-cases (ltb (length src) (pal_len k))) [
      | inl short ↦ inl (ltb→lt _ _ short, rw (e, short) refl)
      | inr held ↦
          let has_palette = not_ltb (length src) (pal_len k) held in
          elim (Bool-cases (leb (pal_len k + index_len k (w * h)) (length src))) [
            | inl whole ↦
                let fits = leb→le (pal_len k + index_len k (w * h)) (length src) whole in
                let (bytes, all, size) = pixels-inside k src (w * h) 0 (omega arith) in
                inr (inl (fits, (bytes, rw (e, held, all) refl, size)))
            | inr cut ↦
                let beyond = not_leb (pal_len k + index_len k (w * h)) (length src) cut in
                let lost = pixels-outside k src (w * h) 0 (omega arith) (omega arith) in
                inr (inr (has_palette, beyond, rw (e, held, lost) refl))
          ]
    ]
