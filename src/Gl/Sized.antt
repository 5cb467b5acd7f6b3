-- ===== src/Gl/Sized.antt =====
-- The sizes of buffer objects under the operations of Buffers and Client.
use garmin_gpsmap_emu.Prelude.{ℕ, zero, suc, ◌+◌, ◌≤◌}
use garmin_gpsmap_emu.Prelude.{u32}
use garmin_gpsmap_emu.Prelude.{◌≡◌, refl, ap, inl, inr, arith}
use garmin_gpsmap_emu.Prelude.{Bool, true, false, if◌then◌else◌, ◌==◌}
use garmin_gpsmap_emu.Prelude.{Option, none, some, List, [], ◌∷◌, ◌++◌, Option-cases}
use garmin_gpsmap_emu.Prelude.{update, length, take, drop}
use garmin_gpsmap_emu.Prelude.{length-append}
use native.Mathlib.Decide.{ℕ_discrete}
use garmin_gpsmap_emu.Prelude.{length-take, length-drop}
use garmin_gpsmap_emu.Gl.Op.{
  GlOp, op_vertexptr, op_normalptr, op_colorptr, op_texcoordptr, op_pointsizeptr, op_enableclient,
}
use garmin_gpsmap_emu.Gl.Op.{
  op_disableclient, op_clientactivetex, op_bindbuffer, op_pixelstore, op_bindtexture,
  op_activetexture,
}
use garmin_gpsmap_emu.Gl.Client.{
  Client, GlBuffer, array_index, buffer_lookup, op_vertex, op_store, set_pointer, set_enabled,
  tex_unit,
}
use garmin_gpsmap_emu.Gl.Buffers.{gen_from, delete_one, delete_all, store_at}

-- Every buffer object has the bytes that its size says.
unfoldable pub IsSized : (ℕ → Option GlBuffer) → Type 0
IsSized buffers = (id : ℕ) (b : GlBuffer) → buffers id ≡ some b → length b.bytes ≡ b.size

-- The buffer objects are sized, and the texture unit has an array.
unfoldable pub IsValid : Client → Type 0
IsValid c = (c.client_tex_unit ≤ 3) × IsSized c.buffers

IsSized-update :
    (buffers : ℕ → Option GlBuffer) (id : ℕ) (o : Option GlBuffer)
    → IsSized buffers
    → ((b : GlBuffer) → o ≡ some b → length b.bytes ≡ b.size)
    → IsSized (update buffers id o)
unfolding IsSized
IsSized-update buffers id o h new k b e = elim (ℕ_discrete k id) [
  | yes p ↦ new b (ground arith)
  | no p ↦ h k b (ground arith)
]

held : GlBuffer → Option GlBuffer → GlBuffer
held d none = d
held d (some b) = b

pub IsSized-some :
    (buffers : ℕ → Option GlBuffer) (id : ℕ) (v : GlBuffer)
    → IsSized buffers
    → length v.bytes ≡ v.size
    → IsSized (update buffers id (some v))
unfolding held
IsSized-some buffers id v h new =
    IsSized-update buffers id (some v) h (λ b e. let same : v ≡ b = ap (held v) e in rw⁻¹ same new)

IsSized-none :
    (buffers : ℕ → Option GlBuffer) (id : ℕ) → IsSized buffers → IsSized (update buffers id none)
IsSized-none buffers id h = IsSized-update buffers id none h (λ b e. ground arith)

enabled-buffers : (c : Client) (cap : ℕ) (on : Bool) → (set_enabled c cap on).buffers ≡ c.buffers
unfolding set_enabled
enabled-buffers c cap on = elim (Option-cases (array_index c cap)) [
  | inl e ↦ rw (set_enabled, e) refl
  | inr (i, e) ↦ rw (set_enabled, e) refl
]

enabled-unit :
    (c : Client) (cap : ℕ) (on : Bool) → (set_enabled c cap on).client_tex_unit ≡ c.client_tex_unit
unfolding set_enabled
enabled-unit c cap on = elim (Option-cases (array_index c cap)) [
  | inl e ↦ rw (set_enabled, e) refl
  | inr (i, e) ↦ rw (set_enabled, e) refl
]

if_IsValid : (x y : Client) (b : Bool) → IsValid x → IsValid y → IsValid (if b then x else y)
if_IsValid x y true p q = p
if_IsValid x y false p q = q

pub track-IsValid :
    (c : Client) (raw : ℕ → ℕ) (op : GlOp) → IsValid c → IsValid (op_vertex c raw op)
unfolding op_vertex op_store set_pointer IsValid tex_unit
track-IsValid c raw op_vertexptr h = h
track-IsValid c raw op_normalptr h = h
track-IsValid c raw op_colorptr h = h
track-IsValid c raw op_texcoordptr h = h
track-IsValid c raw op_pointsizeptr h = h
track-IsValid c raw op_clientactivetex h = (omega arith, h.1)
track-IsValid c raw op_bindtexture h = h
track-IsValid c raw op_activetexture h = h
track-IsValid c raw op_enableclient (h, k) =
    (rw (enabled-unit c (raw 0) true) h, rw (enabled-buffers c (raw 0) true) k)
track-IsValid c raw op_disableclient (h, k) =
    (rw (enabled-unit c (raw 0) false) h, rw (enabled-buffers c (raw 0) false) k)
track-IsValid c raw op_bindbuffer h =
    if_IsValid _ _ (raw 0 == 0x8892) h (if_IsValid _ _ (raw 0 == 0x8893) h h)
track-IsValid c raw op_pixelstore h = if_IsValid _ _ (raw 0 == 0x0cf5) h h
track-IsValid c raw other h = h

pub gen_from-IsValid : (n : ℕ) (c : Client) → IsValid c → IsValid (gen_from n c).0
unfolding gen_from IsValid
gen_from-IsValid zero c h = h
gen_from-IsValid (suc n) c (h, k) =
    let id = c.next_buffer_id in
    gen_from-IsValid n
      (record c {
        next_buffer_id = u32 (id + 1);
        buffers = update c.buffers id (some (record { bytes = []; size = 0 }));
      })
      (h, IsSized-some c.buffers id (record { bytes = []; size = 0 }) k refl)

unbind-IsValid :
    (c : Client) (id : ℕ)
    → IsValid c
    → IsValid (
        let array = if id == c.bound_array_buf then record c { bound_array_buf = 0 } else c in
        if id == array.bound_elem_buf then record array { bound_elem_buf = 0 } else array)
unfolding IsValid
unbind-IsValid c id h =
    let array = if id == c.bound_array_buf then record c { bound_array_buf = 0 } else c in
    let first : IsValid array =
      if_IsValid (record c { bound_array_buf = 0 }) c (id == c.bound_array_buf) h h in
    if_IsValid (record array { bound_elem_buf = 0 }) array (id == array.bound_elem_buf) first first

delete_one-IsValid : (c : Client) (id : ℕ) → IsValid c → IsValid (delete_one c id)
unfolding delete_one IsValid
delete_one-IsValid c id (h, k) = elim (Option-cases (buffer_lookup c id)) [
  | inl e ↦ rw (delete_one, e) (unbind-IsValid c id (h, k))
  | inr (b, e) ↦
      rw (delete_one, e)
        (unbind-IsValid (record c { buffers = update c.buffers id none }) id
          (h, IsSized-none c.buffers id k))
]

pub delete_all-IsValid : (ids : List ℕ) (c : Client) → IsValid c → IsValid (delete_all c ids)
unfolding delete_all
delete_all-IsValid [] c h = h
delete_all-IsValid (id ∷ rest) c h =
    delete_all-IsValid rest (delete_one c id) (delete_one-IsValid c id h)

pub store_at-length :
    (bytes : List ℕ) (at : ℕ) (new : List ℕ)
    → at + length new ≤ length bytes
    → (out : List ℕ) × (store_at bytes at new ≡ some out) × (length out ≡ length bytes)
unfolding store_at
store_at-length bytes at new h = (
  take at bytes ++ new ++ drop (at + length new) bytes,
  ground arith,
  omega (
    arith,
    length-append (take at bytes ++ new) (drop (at + length new) bytes),
    length-append (take at bytes) new,
    length-take bytes at (omega arith),
    length-drop bytes (at + length new),
  ),
)
