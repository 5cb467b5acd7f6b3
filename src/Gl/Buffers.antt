-- ===== src/Gl/Buffers.antt =====
-- The buffer objects of qemu/hw/arm/garmin_gl.c: the branches of `gl_dispatch` for glGenBuffers,
-- glDeleteBuffers, glBufferData, glBufferSubData and glGetBufferParameteriv.
use garmin_gpsmap_emu.Prelude.{ℕ, zero, suc, ◌+◌, ◌*◌, min}
use garmin_gpsmap_emu.Prelude.{u32}
use garmin_gpsmap_emu.Prelude.{not, ◌||◌, if◌then◌else◌, ◌==◌, leb}
use garmin_gpsmap_emu.Prelude.{Option, none, some, List, [], ◌∷◌, ◌++◌}
use garmin_gpsmap_emu.Prelude.{update, length, take, drop, replicate}
use garmin_gpsmap_emu.Gl.Client.{Client, GuestOps, buffer_lookup}

-- The words of bytes, low byte first.
unfoldable pub words : List ℕ → List ℕ
words (a ∷ b ∷ c ∷ d ∷ rest) = (a + 256 * b + 65536 * c + 16777216 * d) ∷ words rest
words other = []

unfoldable pub gen_from : ℕ → Client → Client × List ℕ
gen_from zero c = (c, [])
gen_from (suc n) c =
    let id = c.next_buffer_id in
    let fresh = record c {
      next_buffer_id = u32 (id + 1);
      buffers = update c.buffers id (some (record { bytes = []; size = 0 }));
    } in
    let (d, ids) = gen_from n fresh in (d, id ∷ ids)

unfoldable pub delete_one : Client → ℕ → Client
delete_one c id =
    let kept : Client = elim (buffer_lookup c id) [
      | none ↦ c
      | some b ↦ record c { buffers = update c.buffers id none }
    ] in
    let array = if id == kept.bound_array_buf then record kept { bound_array_buf = 0 } else kept in
    if id == array.bound_elem_buf then record array { bound_elem_buf = 0 } else array

unfoldable pub delete_all : Client → List ℕ → Client
delete_all c [] = c
delete_all c (id ∷ rest) = delete_all (delete_one c id) rest

-- The buffer bound to a target.
abbrev pub bound_to : Client → ℕ → ℕ
bound_to c target = if target == 0x8893 then c.bound_elem_buf else c.bound_array_buf

-- The bytes with those from `at` on replaced; nothing when the block ends outside.
unfoldable pub store_at : List ℕ → ℕ → List ℕ → Option (List ℕ)
store_at bytes at new =
    if leb (at + length new) (length bytes)
    then some (take at bytes ++ new ++ drop (at + length new) bytes)
    else none

module _ {M : Type 0} (ops : GuestOps M) where
  unfoldable pub guest_read : M → ℕ → ℕ → Option (List ℕ)
  guest_read m va len = if va == 0 || len == 0 then none else ops.rw_debug m va len

  unfoldable pub guest_write : M → ℕ → List ℕ → M
  guest_write m va ws = if va == 0 || length ws == 0 then m else ops.rw_words m va ws

  unfoldable pub gen_buffers : Client → M → (ℕ → ℕ) → Client × M
  gen_buffers c m raw = let (d, ids) = gen_from (min (raw 0) 64) c in (d, guest_write m (raw 1) ids)

  unfoldable pub delete_buffers : Client → M → (ℕ → ℕ) → Client
  delete_buffers c m raw =
      let cnt = min (raw 0) 64 in
      elim (guest_read m (raw 1) (cnt * 4)) [
        | none ↦ delete_all c (take cnt ops.stale)
        | some bytes ↦ delete_all c (words bytes)
      ]

  unfoldable pub buffer_data : Client → M → (ℕ → ℕ) → Client
  buffer_data c m raw =
      let id = bound_to c (raw 0) in
      let zeros = replicate (raw 1) 0 in
      elim (buffer_lookup c id) [
        | none ↦ c
        | some b ↦
            let filled : List ℕ = elim (guest_read m (raw 2) (raw 1)) [
              | none ↦ zeros
              | some bytes ↦ bytes
            ] in
            record c {
              buffers = update c.buffers id (some (record { bytes = filled; size = raw 1 }));
            }
      ]

  -- None is a store outside the buffer.
  unfoldable pub buffer_sub_data : Client → M → (ℕ → ℕ) → Option Client
  buffer_sub_data c m raw =
      let id = bound_to c (raw 0) in
      elim (buffer_lookup c id) [
        | none ↦ some c
        | some b ↦
            if not (leb (u32 (raw 1 + raw 2)) b.size)
            then some c
            else elim (guest_read m (raw 3) (raw 2)) [
              | none ↦ some c
              | some new ↦ elim (store_at b.bytes (raw 1) new) [
                | none ↦ none
                | some bytes ↦
                    some (record c {
                      buffers = update c.buffers id (some (record b { bytes = bytes }));
                    })
              ]
            ]
      ]

  unfoldable pub get_buffer_param : Client → M → (ℕ → ℕ) → M
  get_buffer_param c m raw =
      let v : ℕ = elim (buffer_lookup c (bound_to c (raw 0))) [
        | none ↦ 0
        | some b ↦ if raw 1 == 0x8764 then b.size else if raw 1 == 0x8765 then 0x88e4 else 0
      ] in
      guest_write m (raw 2) (v ∷ [])
