-- ===== src/Gl/Safe.antt =====
-- The tracked state under any calls: buffer objects keep their size, the texture unit its range.
use garmin_gpsmap_emu.Prelude.{ℕ, ◌+◌, ◌*◌, ◌^◌, ◌<◌, min}
use garmin_gpsmap_emu.Prelude.{u32}
use garmin_gpsmap_emu.Prelude.{◌≡◌, refl, ◌∙◌, inl, inr, arith}
use garmin_gpsmap_emu.Prelude.{leb}
use garmin_gpsmap_emu.Prelude.{Option, none, some, List, [], ◌∷◌, Bool-cases, Option-cases}
use garmin_gpsmap_emu.Prelude.{update, length, take, replicate}
use garmin_gpsmap_emu.Prelude.{length-replicate}
use garmin_gpsmap_emu.Gl.Op.{GlOp}
use garmin_gpsmap_emu.Gl.Client.{Client, GlBuffer, GuestOps, buffer_lookup, op_vertex}
use garmin_gpsmap_emu.Gl.Buffers.{words, bound_to, guest_read}
use garmin_gpsmap_emu.Gl.Buffers.{gen_buffers, delete_buffers, buffer_data, buffer_sub_data}
use garmin_gpsmap_emu.Gl.Sized.{
  IsSized, IsValid, IsSized-some, track-IsValid, gen_from-IsValid, delete_all-IsValid,
  store_at-length,
}

-- A call of the guest, with its arguments.
pub data Call : Type 0 where
  track : GlOp → (ℕ → ℕ) → Call
  generate : (ℕ → ℕ) → Call
  delete : (ℕ → ℕ) → Call
  fill : (ℕ → ℕ) → Call
  patch : (ℕ → ℕ) → Call

-- The end of a replaced range is a word.
unfoldable pub IsInRange : Call → Type 0
IsInRange (patch raw) = raw 1 + raw 2 < 2 ^ 32
IsInRange other = Unit

unfoldable pub AllInRange : List Call → Type 0
AllInRange [] = Unit
AllInRange (call ∷ rest) = IsInRange call × AllInRange rest

-- What the guest's memory promises: a read gives as many bytes as were asked for.
unfoldable pub ReadsAll : {M : Type 0} → GuestOps M → Type 0
ReadsAll {M} ops =
    (m : M) (va len : ℕ) (bytes : List ℕ) → ops.rw_debug m va len ≡ some bytes → length bytes ≡ len

module _ {M : Type 0} (ops : GuestOps M) where
  -- What a call does to the tracked state and the memory; none is a store outside a buffer.
  unfoldable pub call : Client → M → Call → Option (Client × M)
  call c m (track op raw) = some (op_vertex c raw op, m)
  call c m (generate raw) = some (gen_buffers ops c m raw)
  call c m (delete raw) = some (delete_buffers ops c m raw, m)
  call c m (fill raw) = some (buffer_data ops c m raw, m)
  call c m (patch raw) = elim (buffer_sub_data ops c m raw) [ none ↦ none | some d ↦ some (d, m) ]

  unfoldable pub calls : List Call → Client → M → Option (Client × M)
  calls [] c m = some (c, m)
  calls (x ∷ rest) c m = elim (call c m x) [ none ↦ none | some (d, n) ↦ calls rest d n ]

module _ {M : Type 0} (ops : GuestOps M) (reads : ReadsAll ops) where
  read-length :
      (m : M) (va len : ℕ) (bytes : List ℕ)
      → guest_read ops m va len ≡ some bytes
      → length bytes ≡ len
  unfolding guest_read ReadsAll
  read-length m va len bytes h = ground (arith, reads m va len bytes)

  lookup-buffers :
      (c : Client) (id : ℕ) (b : GlBuffer) → buffer_lookup c id ≡ some b → c.buffers id ≡ some b
  unfolding buffer_lookup
  lookup-buffers c id b h = ground arith

  fill-IsValid : (c : Client) (m : M) (raw : ℕ → ℕ) → IsValid c → IsValid (buffer_data ops c m raw)
  unfolding buffer_data IsValid
  fill-IsValid c m raw (h, k) =
      let id = bound_to c (raw 0) in
      elim (Option-cases (buffer_lookup c id)) [
        | inl e ↦ rw (buffer_data, e) (h, k)
        | inr (b, e) ↦ elim (Option-cases (guest_read ops m (raw 2) (raw 1))) [
          | inl none_read ↦
              rw (buffer_data, e, none_read)
                (
                  h,
                  IsSized-some c.buffers id (record { bytes = replicate (raw 1) 0; size = raw 1 }) k
                      (length-replicate (raw 1) 0),
                )
          | inr (bytes, r) ↦
              rw (buffer_data, e, r)
                (
                  h,
                  IsSized-some c.buffers id (record { bytes = bytes; size = raw 1 }) k
                      (read-length m (raw 2) (raw 1) bytes r),
                )
        ]
      ]

  patch-IsValid :
      (c : Client) (m : M) (raw : ℕ → ℕ)
      → IsValid c
      → raw 1 + raw 2 < 2 ^ 32
      → (d : Client) × (buffer_sub_data ops c m raw ≡ some d) × IsValid d
  unfolding buffer_sub_data IsValid IsSized
  patch-IsValid c m raw (h, k) r =
      let id = bound_to c (raw 0) in
      elim (Option-cases (buffer_lookup c id)) [
        | inl e ↦ (c, rw (buffer_sub_data, e) refl, (h, k))
        | inr (b, e) ↦ elim (Bool-cases (leb (u32 (raw 1 + raw 2)) b.size)) [
          | inr far ↦ (c, rw (buffer_sub_data, e, far) refl, (h, k))
          | inl near ↦ elim (Option-cases (guest_read ops m (raw 3) (raw 2))) [
            | inl unread ↦ (c, rw (buffer_sub_data, e, near, unread) refl, (h, k))
            | inr (new, got) ↦
                let whole : length b.bytes ≡ b.size = k id b (lookup-buffers c id b e) in
                let asked : length new ≡ raw 2 = read-length m (raw 3) (raw 2) new got in
                let (out, stored, size) =
                  store_at-length b.bytes (raw 1) new (ground (arith, whole, asked)) in
                (
                  record c { buffers = update c.buffers id (some (record b { bytes = out })) },
                  rw (buffer_sub_data, e, near, got, stored) refl,
                  (h, IsSized-some c.buffers id (record b { bytes = out }) k (size ∙ whole)),
                )
          ]
        ]
      ]

  call-IsValid :
      (c : Client) (m : M) (x : Call)
      → IsValid c
      → IsInRange x
      → (d : Client) × (n : M) × (call ops c m x ≡ some (d, n)) × IsValid d
  unfolding call IsInRange gen_buffers delete_buffers
  call-IsValid c m (track op raw) h r = (op_vertex c raw op, m, refl, track-IsValid c raw op h)
  call-IsValid c m (generate raw) h r =
      let (d, n) = gen_buffers ops c m raw in (d, n, refl, gen_from-IsValid (min (raw 0) 64) c h)
  call-IsValid c m (delete raw) h r = (
    delete_buffers ops c m raw,
    m,
    refl,
    elim (Option-cases (guest_read ops m (raw 1) (min (raw 0) 64 * 4))) [
      | inl e ↦ rw (delete_buffers, e) (delete_all-IsValid (take (min (raw 0) 64) ops.stale) c h)
      | inr (bytes, e) ↦ rw (delete_buffers, e) (delete_all-IsValid (words bytes) c h)
    ],
  )
  call-IsValid c m (fill raw) h r = (buffer_data ops c m raw, m, refl, fill-IsValid c m raw h)
  call-IsValid c m (patch raw) h r =
      let (d, e, v) = patch-IsValid c m raw h r in (d, m, rw (call, e) refl, v)

  -- Under any tracked calls whose replaced ranges end at a word, from a state in which it holds: no
  -- call stores outside a buffer, every buffer object keeps as many bytes as its size says, and the
  -- texture unit stays below 4. Reads of the guest give as many bytes as asked for.
  pub calls-IsValid :
      (xs : List Call) (c : Client) (m : M)
      → IsValid c
      → AllInRange xs
      → (d : Client) × (n : M) × (calls ops xs c m ≡ some (d, n)) × IsValid d
  unfolding calls AllInRange
  calls-IsValid [] c m h r = (c, m, refl, h)
  calls-IsValid (x ∷ rest) c m h (r, rs) =
      let (d, n, e, v) = call-IsValid c m x h r in
      let (f, o, e', v') = calls-IsValid rest d n v rs in (f, o, rw (calls, e) e', v')
