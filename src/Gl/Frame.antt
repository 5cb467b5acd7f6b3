-- ===== src/Gl/Frame.antt =====
-- The requests to the renderer in qemu/hw/arm/garmin_gl.c: how they are put together, queued for a
-- frame and handed to the render thread, and the picture that comes back. `executed` lists what the
-- render thread has run, the oldest first; the host's answer is a function of that.
use garmin_gpsmap_emu.Prelude.{ℕ, ◌+◌, ◌-◌, ◌*◌, ◌/◌}
use garmin_gpsmap_emu.Prelude.{bit_or, u64, shl, shr, nonzero}
use garmin_gpsmap_emu.Prelude.{Bool, true, false, not, ◌&&◌, ◌||◌, if◌then◌else◌, ◌==◌}
use garmin_gpsmap_emu.Prelude.{Option, none, some, List, [], ◌∷◌, ◌++◌}
use garmin_gpsmap_emu.Prelude.{update, length, take, replicate}
use Prim.Native.Nat.{bit_xor}
use garmin_gpsmap_emu.Gl.Op.{GlOp, op_is_query, op_swapbuffers, op_teximage2d, op_bindtexture}

-- An array in a request: `off` is the place of its floats.
pub record ArrayBlob : Type 0 where
  pub enabled : Bool
  pub size : ℕ
  pub off : ℕ

-- The fields of a request that only draws use.
pub record Draw : Type 0 where
  pub arr : List ArrayBlob
  pub nverts : ℕ
  pub idx_off : ℕ
  pub idx_type : ℕ
  pub idx_count : ℕ

abbrev pub no_draw : Draw
no_draw = record { arr = []; nverts = 0; idx_off = 0; idx_type = 0; idx_count = 0 }

-- `input` is the request's buffer up to `in_len`.
pub record GlReq : Type 0 where
  pub op : GlOp
  pub a : ℕ → ℕ
  pub input : List ℕ
  pub draw : Draw

pub record TexSrc : Type 0 where
  pub ptr : ℕ
  pub w : ℕ
  pub h : ℕ
  pub fmt : ℕ
  pub kind : ℕ
  pub len : ℕ
  pub hash : ℕ
  pub dirty_check : Bool
  pub synced_frame : Bool

pub record Frame : Type 0 where
  pub queue : List GlReq
  pub executed : List GlReq
  pub texsrcs : ℕ → Option TexSrc
  pub gpu_textures : ℕ → Bool
  pub bound_at_swap : ℕ

-- The place of the next block in a request's buffer.
abbrev pub round16 : ℕ → ℕ
round16 n = (n + 15) / 16 * 16

unfoldable pub req_push : GlReq → List ℕ → GlReq × ℕ
req_push r bytes =
    let off = round16 (length r.input) in
    (record r { input = r.input ++ replicate (off - length r.input) 0 ++ bytes }, off)

-- FNV-1a over words of 32 bits.
unfoldable pub hash_from : ℕ → List ℕ → ℕ
hash_from h (a ∷ b ∷ c ∷ d ∷ rest) =
    hash_from (u64 (bit_xor h (a + 256 * b + 65536 * c + 16777216 * d) * 1099511628211)) rest
hash_from h other = h

unfoldable pub hash_bytes : List ℕ → ℕ
hash_bytes bytes = hash_from 1469598103934665603 bytes

abbrev pub is_swap : GlOp → Bool
is_swap op_swapbuffers = true
is_swap other = false

abbrev pub is_upload : GlOp → Bool
is_upload op_teximage2d = true
is_upload other = false

unfoldable pub mk_bind_req : ℕ → GlReq
mk_bind_req id = record {
  op = op_bindtexture;
  a = update (update (λ i. 0) 0 0x0de1) 1 id;
  input = [];
  draw = no_draw;
}

unfoldable pub frame_flush : Frame → Frame
frame_flush f = record f { queue = []; executed = f.executed ++ f.queue }

-- The whole words of a buffer, `len & ~3u`.
abbrev pub whole_words : List ℕ → List ℕ
whole_words bytes = take (length bytes / 4 * 4) bytes

-- `guest_read` reads the guest's memory as it is at the time, as that of Buffers does.
module _ (guest_read : ℕ → ℕ → Option (List ℕ)) where
  -- A queued upload of this frame whose texels are read again.
  unfoldable pub needs_sync : Frame → GlReq → Bool
  needs_sync f e =
      let source : Bool = elim (f.texsrcs (e.a 10)) [
        | none ↦ false
        | some t ↦ t.dirty_check && not (f.gpu_textures (e.a 10))
      ] in
      is_upload e.op && nonzero (e.a 8) && nonzero (length e.input) && source

  -- A request with its texels read again; a read that fails leaves them.
  unfoldable pub reread : GlReq → GlReq
  reread e = elim (guest_read (e.a 8) (length e.input)) [
    | none ↦ e
    | some bytes ↦ record e { input = bytes }
  ]

  unfoldable pub mark_synced : (ℕ → Option TexSrc) → GlReq → ℕ → Option TexSrc
  mark_synced texsrcs e = elim (texsrcs (e.a 10)) [
    | none ↦ texsrcs
    | some t ↦
        update texsrcs (e.a 10)
          (some (record t { hash = hash_bytes (whole_words e.input); synced_frame = true }))
  ]

  -- The first loop: the uploads of the queue, in order.
  unfoldable pub sync_queue : Frame → List GlReq → Frame
  sync_queue f [] = f
  sync_queue f (e ∷ rest) =
      let fresh = reread e in
      let next =
        if needs_sync f e
        then record f { queue = f.queue ++ (fresh ∷ []); texsrcs = mark_synced f.texsrcs fresh }
        else record f { queue = f.queue ++ (e ∷ []) } in
      sync_queue next rest

  -- The upload that the second loop puts at the head of the queue.
  unfoldable pub upload_req : ℕ → TexSrc → List ℕ → GlReq
  upload_req id t bytes =
      let first = update (update (update (update (λ i. 0) 0 0x0de1) 2 t.fmt) 3 t.w) 4 t.h in
      let args =
        update (update (update (update (update first 6 t.fmt) 7 t.kind) 8 t.ptr) 9 4) 10 id in
      record { op = op_teximage2d; a = args; input = bytes; draw = no_draw }

  unfoldable pub resync_one : Frame → ℕ → Frame
  resync_one f id = elim (f.texsrcs id) [
    | none ↦ f
    | some t ↦
        if not t.dirty_check || f.gpu_textures id
        then f
        else if t.synced_frame
        then record f { texsrcs = update f.texsrcs id (some (record t { synced_frame = false })) }
        else elim (guest_read t.ptr t.len) [
          | none ↦ f
          | some bytes ↦
              let h = hash_bytes (whole_words bytes) in
              if h == t.hash then f else record f {
                texsrcs = update f.texsrcs id (some (record t { hash = h }));
                queue =
                    mk_bind_req id ∷ upload_req id t bytes ∷ mk_bind_req f.bound_at_swap ∷ f.queue;
              }
        ]
  ]

  unfoldable pub resync : Frame → List ℕ → Frame
  resync f [] = f
  resync f (id ∷ rest) = resync (resync_one f id) rest

  -- `ids` are the keys of the table of sources in the order in which it is walked.
  unfoldable pub sync_large_textures : Bool → List ℕ → Frame → Frame
  sync_large_textures garmin_gl_resync ids f =
      let synced = sync_queue (record f { queue = [] }) f.queue in
      if garmin_gl_resync then resync synced ids else synced

  -- What `gl_dispatch` does with a request that is put together: hold it back for the frame, or flush
  -- the queue and let the render thread run it.
  unfoldable pub submit : Bool → List ℕ → ℕ → Frame → GlReq → Frame
  submit garmin_gl_resync ids bound_texture f r =
      if is_swap r.op
      then (let g = frame_flush (sync_large_textures garmin_gl_resync ids f) in
          record g { executed = g.executed ++ (r ∷ []); bound_at_swap = bound_texture })
      else if op_is_query r.op
      then (let g = frame_flush f in record g { executed = g.executed ++ (r ∷ []) })
      else record f { queue = f.queue ++ (r ∷ []) }

-- The 5, 6 and 5 bits of a pixel.
unfoldable pub pack565 : ℕ → ℕ → ℕ → ℕ
pack565 r g b = bit_or (bit_or (shl (shr r 3) 11) (shl (shr g 2) 5)) (shr b 3)

-- The halfword in column `x` and row `y` of the picture that is written to the scan-out buffer, from
-- the RGBA bytes of the host, whose rows run upwards.
unfoldable pub presented : (ℕ → ℕ) → ℕ → ℕ → ℕ → ℕ → ℕ
presented rgba w h x y =
    let src = (h - 1 - y) * w * 4 + x * 4 in pack565 (rgba src) (rgba (src + 1)) (rgba (src + 2))
