-- ===== src/Gl/Vertex.antt =====
-- The fetch of vertices in qemu/hw/arm/garmin_gl.c: the arrays of a draw as floats in a request. A
-- float is its word, and `comp_to_float` is a parameter. Counts, sizes and strides are not negative.
use garmin_gpsmap_emu.Prelude.{ℕ, zero, suc, ◌+◌, ◌*◌, ◌/◌, ◌%◌}
use garmin_gpsmap_emu.Prelude.{nonzero}
use garmin_gpsmap_emu.Prelude.{Bool, true, not, ◌&&◌, ◌||◌, if◌then◌else◌, ◌==◌, ltb, leb}
use garmin_gpsmap_emu.Prelude.{Option, none, some, List, [], ◌∷◌, ◌++◌}
use garmin_gpsmap_emu.Prelude.{length, take, drop}
use garmin_gpsmap_emu.Gl.Client.{
  Client, ClientArray, type_size, buffer_lookup, arr_color, arr_normal, arr_pointsize,
}
use garmin_gpsmap_emu.Gl.Frame.{GlReq, ArrayBlob, req_push}

-- What becomes of a fetch: a request, the answer false, or a read outside a buffer object.
pub data Fetch : Type 0 where
  fetched : GlReq → ArrayBlob → Fetch
  refused : Fetch
  outside : Fetch

-- The four bytes of a word.
unfoldable pub bytes_of : List ℕ → List ℕ
bytes_of [] = []
bytes_of (w ∷ rest) = w % 256 ∷ w / 256 % 256 ∷ w / 65536 % 256 ∷ w / 16777216 % 256 ∷ bytes_of rest

-- How many bytes `comp_to_float` reads of a component.
unfoldable pub comp_bytes : ℕ → ℕ
comp_bytes type =
    if type == 0x140c || type == 0x1406
    then 4
    else if leb 0x1400 type && leb type 0x1403
    then type_size type
    else 0

unfoldable pub cons_some : Option ℕ → Option (List ℕ) → Option (List ℕ)
cons_some (some x) (some xs) = some (x ∷ xs)
cons_some a b = none

unfoldable pub append_some : Option (List ℕ) → Option (List ℕ) → Option (List ℕ)
append_some (some xs) (some ys) = some (xs ++ ys)
append_some a b = none

module _ (comp_to_float : List ℕ → ℕ → Bool → ℕ) where
  -- One component, unless it does not lie in the source.
  unfoldable pub component : List ℕ → ℕ → ℕ → Bool → Option ℕ
  component src at type norm =
      let n = comp_bytes type in
      if leb (at + n) (length src)
      then some (comp_to_float (take n (drop at src)) type norm)
      else none

  -- The components of a vertex from `at` on.
  unfoldable pub vertex : ℕ → List ℕ → ℕ → ℕ → Bool → Option (List ℕ)
  vertex zero src at type norm = some []
  vertex (suc n) src at type norm =
      cons_some (component src at type norm) (vertex n src (at + type_size type) type norm)

  unfoldable pub vertices : ℕ → ℕ → List ℕ → ℕ → ℕ → Bool → ℕ → Option (List ℕ)
  vertices zero size src at type norm stride = some []
  vertices (suc n) size src at type norm stride =
      append_some (vertex size src at type norm)
        (vertices n size src (at + stride) type norm stride)

module _ (comp_to_float : List ℕ → ℕ → Bool → ℕ) (guest_read : ℕ → ℕ → Option (List ℕ)) where
  -- The bytes to read from: the rest of a buffer object, or a block of the guest's memory.
  unfoldable pub source : Client → ClientArray → ℕ → ℕ → Option (List ℕ)
  source c a need stride =
      if nonzero a.buffer
      then elim (buffer_lookup c a.buffer) [
        | none ↦ none
        | some b ↦ if ltb (b.size + stride) (a.ptr + need) then none else some (drop a.ptr b.bytes)
      ]
      else guest_read a.ptr need

  unfoldable pub pushed : GlReq → ClientArray → Option (List ℕ) → Fetch
  pushed r a none = outside
  pushed r a (some floats) =
      let (s, off) = req_push r (bytes_of floats) in
      fetched s (record { enabled = true; size = a.size; off = off })

  unfoldable pub marshal_array : Client → GlReq → ℕ → ℕ → ℕ → Fetch
  marshal_array c r idx first count =
      let a = c.arrays idx in
      let stride = if nonzero a.stride then a.stride else a.size * type_size a.type in
      let norm = idx == arr_color || idx == arr_normal in
      let need = stride * (first + count) in
      if not a.enabled || count == 0
      then fetched r (record { enabled = a.enabled; size = 0; off = 0 })
      else elim (source c a need stride) [
        | none ↦ refused
        | some src ↦
            pushed r a (vertices comp_to_float count a.size src (first * stride) a.type norm stride)
      ]

  -- The arrays from `idx` on, each put behind the one before; the request and the blobs.
  unfoldable pub marshal_from :
      ℕ → ℕ → Client → GlReq → ℕ → ℕ → List ArrayBlob → Option (GlReq × List ArrayBlob)
  marshal_from zero idx c r first count blobs = some (r, blobs)
  marshal_from (suc n) idx c r first count blobs = elim (marshal_array c r idx first count) [
    | fetched s b ↦ marshal_from n (idx + 1) c s first count (blobs ++ (b ∷ []))
    | refused ↦ none
    | outside ↦ none
  ]

  unfoldable pub marshal_draw : Client → GlReq → ℕ → ℕ → Option (GlReq × List ArrayBlob)
  marshal_draw c r first count = marshal_from arr_pointsize 0 c r first count []
