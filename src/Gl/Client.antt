-- ===== src/Gl/Client.antt =====
-- The state that qemu/hw/arm/garmin_gl.c tracks on the guest's side: vertex arrays, buffer objects and
-- bindings, and the branches of `gl_dispatch` that change it without a call of the host.
use garmin_gpsmap_emu.Prelude.{ℕ, ◌+◌, ◌-◌, ◌^◌, min}
use garmin_gpsmap_emu.Prelude.{u32, nonzero}
use garmin_gpsmap_emu.Prelude.{Bool, true, false, ◌||◌, if◌then◌else◌, ◌==◌}
use garmin_gpsmap_emu.Prelude.{Option, none, some, List}
use garmin_gpsmap_emu.Prelude.{update}
use garmin_gpsmap_emu.Gl.Op.{GlOp}
use garmin_gpsmap_emu.Gl.Op.{
  op_vertexptr, op_normalptr, op_colorptr, op_texcoordptr, op_pointsizeptr, op_enableclient,
}
use garmin_gpsmap_emu.Gl.Op.{
  op_disableclient, op_clientactivetex, op_bindbuffer, op_pixelstore, op_bindtexture,
  op_activetexture,
}

pub record ClientArray : Type 0 where
  pub enabled : Bool
  pub size : ℕ
  pub type : ℕ
  pub stride : ℕ
  pub ptr : ℕ
  pub buffer : ℕ

-- No data is the empty list.
pub record GlBuffer : Type 0 where
  pub bytes : List ℕ
  pub size : ℕ

pub record Client : Type 0 where
  pub arrays : ℕ → ClientArray
  pub client_tex_unit : ℕ
  pub server_tex_unit : ℕ
  pub bound_texture : ℕ
  pub bound_array_buf : ℕ
  pub bound_elem_buf : ℕ
  pub buffers : ℕ → Option GlBuffer
  pub next_buffer_id : ℕ
  pub unpack_alignment : ℕ

-- The guest's memory: `rw_debug` reads that many bytes, unless the access fails, and `rw_words` writes
-- words; an access that fails changes nothing. `stale` is what an array on the stack holds before
-- anything is stored in it.
pub record GuestOps (M : Type 0) : Type 0 where
  pub rw_debug : M → ℕ → ℕ → Option (List ℕ)
  pub rw_words : M → ℕ → List ℕ → M
  pub stale : List ℕ

abbrev pub arr_vertex : ℕ
arr_vertex = 0

abbrev pub arr_normal : ℕ
arr_normal = 1

abbrev pub arr_color : ℕ
arr_color = 2

abbrev pub arr_tex0 : ℕ
arr_tex0 = 3

abbrev pub arr_pointsize : ℕ
arr_pointsize = 7

unfoldable pub array_index : Client → ℕ → Option ℕ
array_index c cap =
    if cap == 0x8074
    then some arr_vertex
    else if cap == 0x8075
    then some arr_normal
    else if cap == 0x8076
    then some arr_color
    else if cap == 0x8078
    then some (arr_tex0 + c.client_tex_unit)
    else if cap == 0x8b9c
    then some arr_pointsize
    else none

unfoldable pub set_pointer : Client → ℕ → ℕ → ℕ → ℕ → ℕ → Client
set_pointer c idx size type stride ptr =
    let array = record (c.arrays idx) {
      size = size;
      type = type;
      stride = stride;
      ptr = ptr;
      buffer = c.bound_array_buf;
    } in
    record c { arrays = update c.arrays idx array }

unfoldable pub set_enabled : Client → ℕ → Bool → Client
set_enabled c cap on = elim (array_index c cap) [
  | none ↦ c
  | some idx ↦ record c { arrays = update c.arrays idx (record (c.arrays idx) { enabled = on }) }
]

unfoldable pub buffer_lookup : Client → ℕ → Option GlBuffer
buffer_lookup c id = if id == 0 then none else c.buffers id

-- `MIN(raw - 0x84c0, 3u)` of a word.
unfoldable pub tex_unit : ℕ → ℕ
tex_unit raw = min (u32 (raw + 2 ^ 32 - 0x84c0)) 3

unfoldable pub texel_bytes : ℕ → ℕ → ℕ
texel_bytes format type =
    if type == 0x8033 || type == 0x8034 || type == 0x8363
    then 2
    else if format == 0x1907
    then 3
    else if format == 0x1908
    then 4
    else if format == 0x190a
    then 2
    else if format == 0x80e1
    then 4
    else 1

unfoldable pub type_size : ℕ → ℕ
type_size type =
    if type == 0x1400 || type == 0x1401
    then 1
    else if type == 0x1402 || type == 0x1403
    then 2
    else 4

unfoldable pub get_count : ℕ → ℕ
get_count pname =
    if pname == 0x0ba6 || pname == 0x0ba7 || pname == 0x0ba8
    then 16
    else if pname == 0x0ba2
        || pname == 0x0c10
        || pname == 0x0c22
        || pname == 0x0c23
        || pname == 0x0b00
        || pname == 0x0b53
        || pname == 0x0b66
        || pname == 0x0b02
    then 4
    else if pname == 0x0d3a
        || pname == 0x0b70
        || pname == 0x846d
        || pname == 0x846e
        || pname == 0x0b12
        || pname == 0x0b22
    then 2
    else if pname == 0x0b74
        || pname == 0x0d32
        || pname == 0x0d34
        || pname == 0x0d3b
        || pname == 0x0d3d
        || pname == 0x8b9c
        || pname == 0x8b9d
    then 4
    else 1

-- glActiveTexture and glPixelStorei.
unfoldable pub op_store : Client → (ℕ → ℕ) → GlOp → Client
op_store c raw op_activetexture = record c { server_tex_unit = tex_unit (raw 0) }
op_store c raw op_pixelstore =
    if raw 0 == 0x0cf5
    then record c { unpack_alignment = if nonzero (raw 1) then raw 1 else 4 }
    else c
op_store c raw other = c

-- Pointers, arrays, the client's texture unit and bindings; glActiveTexture and glPixelStorei above.
unfoldable pub op_vertex : Client → (ℕ → ℕ) → GlOp → Client
op_vertex c raw op_vertexptr = set_pointer c arr_vertex (raw 0) (raw 1) (raw 2) (raw 3)
op_vertex c raw op_normalptr = set_pointer c arr_normal 3 (raw 0) (raw 1) (raw 2)
op_vertex c raw op_colorptr = set_pointer c arr_color (raw 0) (raw 1) (raw 2) (raw 3)
op_vertex c raw op_texcoordptr =
    set_pointer c (arr_tex0 + c.client_tex_unit) (raw 0) (raw 1) (raw 2) (raw 3)
op_vertex c raw op_pointsizeptr = set_pointer c arr_pointsize 1 (raw 0) (raw 1) (raw 2)
op_vertex c raw op_enableclient = set_enabled c (raw 0) true
op_vertex c raw op_disableclient = set_enabled c (raw 0) false
op_vertex c raw op_clientactivetex = record c { client_tex_unit = tex_unit (raw 0) }
op_vertex c raw op_bindbuffer =
    if raw 0 == 0x8892
    then record c { bound_array_buf = raw 1 }
    else if raw 0 == 0x8893
    then record c { bound_elem_buf = raw 1 }
    else c
op_vertex c raw op_bindtexture = record c { bound_texture = raw 1 }
op_vertex c raw other = op_store c raw other
