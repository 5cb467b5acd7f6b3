-- ===== src/Gl/Tests.antt =====
-- The interception of OpenGL ES calls at concrete hooks, buffers and requests.
use garmin_gpsmap_emu.Prelude.{ℕ, ◌+◌}
use garmin_gpsmap_emu.Prelude.{◌≡◌, refl, ◌≢◌, arith}
use garmin_gpsmap_emu.Prelude.{true, false, if◌then◌else◌, ltb}
use garmin_gpsmap_emu.Prelude.{Option, none, some, List, [], ◌∷◌, ◌++◌, map}
use garmin_gpsmap_emu.Prelude.{update, get_or, replicate}
use garmin_gpsmap_emu.Prelude.{length-replicate}
use garmin_gpsmap_emu.Gl.{Gl, arguments, gl_trap}
use garmin_gpsmap_emu.Gl.Op.{op_clear, op_swapbuffers, op_teximage2d, op_bindbuffer}
use garmin_gpsmap_emu.Gl.Client.{Client, ClientArray, GuestOps, buffer_lookup}
use garmin_gpsmap_emu.Gl.Buffers.{buffer_sub_data, store_at, guest_read}
use garmin_gpsmap_emu.Gl.Thumb.{Core, run}
use garmin_gpsmap_emu.Gl.Hook.{hooked_call}
use garmin_gpsmap_emu.Gl.{enc_trampoline}
use garmin_gpsmap_emu.Gl.Safe.{
  Call, track, generate, fill, patch, calls, ReadsAll, IsInRange, AllInRange, calls-IsValid,
}
use garmin_gpsmap_emu.Gl.Vertex.{
  fetched, outside, marshal_array, source, vertices, vertex, component, comp_bytes, cons_some,
  append_some, pushed, bytes_of,
}
use garmin_gpsmap_emu.Gl.Client.{type_size}
use garmin_gpsmap_emu.Gl.Frame.{req_push}
use garmin_gpsmap_emu.Prelude.{Bool}
use garmin_gpsmap_emu.Gl.Sized.{IsValid, IsSized}
use garmin_gpsmap_emu.Gl.Frame.{
  GlReq, no_draw, TexSrc, Frame, submit, needs_sync, reread, sync_queue, sync_large_textures,
  frame_flush, presented, pack565,
}
use garmin_gpsmap_emu.Gl.Order.{AllKept, submits, answers_in_order}

-- A host that counts its calls and answers the first argument plus 1.
abbrev host : ℕ → ℕ → List ℕ → ℕ × ℕ
host s slot args = (s + 1, get_or args 0 0 + 1)

abbrev hooked : Gl ℕ
hooked = record {
  hooks = record { addr = 0x80010000; nargs = 2; calls = 0 } ∷ [];
  patches = [];
  result = 0;
  inner = 0;
}

abbrev caller : Core ℕ
caller = record { at = 0; regs = λ k. k + 100; gl = hooked; returned = none }

hooked_call_example :
    (d : Core ℕ) × (run host
        (λ a. 0)
        5
        (λ k. enc_trampoline (λ b. 0xff) 0x80010000 0 (0x80010000 + k))
        caller
      ≡ some d)
    × (d.gl ≡ gl_trap host (λ a. 0) caller.regs 0 caller.gl)
    × (d.returned ≡ some 114)
    × (d.regs 0 ≡ d.gl.result)
    × ((k : ℕ) → k ≢ 0 → k ≢ 12 → d.regs k ≡ caller.regs k)
hooked_call_example = hooked_call host (λ a. 0) (λ b. 0xff) 0x80010000 0 caller (omega arith) refl

-- The answer of that call.
answer : (gl_trap host (λ a. 0) caller.regs 0 hooked).result ≡ 101
unfolding gl_trap arguments
answer = refl

abbrev memory : GuestOps ℕ
memory = record {
  rw_debug = λ m va len. some (replicate len 7);
  rw_words = λ m va ws. m;
  stale = [];
}

memory-ReadsAll : ReadsAll memory
unfolding ReadsAll
memory-ReadsAll m va len bytes h = ground (arith, length-replicate {A = ℕ} len 7)

abbrev no_array : ClientArray
no_array = record { enabled = false; size = 0; type = 0; stride = 0; ptr = 0; buffer = 0 }

abbrev start : Client
start = record {
  arrays = λ i. no_array;
  client_tex_unit = 0;
  server_tex_unit = 0;
  bound_texture = 0;
  bound_array_buf = 0;
  bound_elem_buf = 0;
  buffers = λ id. none;
  next_buffer_id = 1;
  unpack_alignment = 4;
}

-- A buffer is generated, bound, filled with 8 bytes and patched.
abbrev words_of : ℕ → ℕ → ℕ → ℕ → ℕ → ℕ
words_of a b c d = update (update (update (update (λ i. 0) 0 a) 1 b) 2 c) 3 d

abbrev session : List Call
session =
    generate (words_of 1 0x1000 0 0)
    ∷ track op_bindbuffer (words_of 0x8892 1 0 0)
    ∷ fill (words_of 0x8892 8 0 0)
    ∷ patch (words_of 0x8892 4 2 0x2000)
    ∷ []

start-IsValid : IsValid start
unfolding IsValid IsSized
start-IsValid = (omega arith, λ id b e. ground arith)

session-AllInRange : AllInRange session
unfolding AllInRange IsInRange
session-AllInRange = (tt, (tt, (tt, (omega arith, tt))))

calls-IsValid_example :
    (d : Client) × (n : ℕ) × (calls memory session start 0 ≡ some (d, n)) × IsValid d
calls-IsValid_example =
    calls-IsValid memory memory-ReadsAll session start 0 start-IsValid session-AllInRange

-- The finding: a range that ends behind 2^32 passes the test and is stored outside the buffer.
abbrev bound : Client
bound = record start {
  bound_array_buf = 1;
  buffers = update start.buffers 1 (some (record { bytes = replicate 8 0; size = 8 }));
}

wraps : buffer_sub_data memory bound 0 (words_of 0x8892 0xffffffff 1 0x2000) ≡ none
unfolding buffer_sub_data buffer_lookup guest_read store_at
wraps = refl

abbrev clear : GlReq
clear = record { op = op_clear; a = λ i. 0x4000; input = []; draw = no_draw }

abbrev swap : GlReq
swap = record { op = op_swapbuffers; a = λ i. 0; input = []; draw = no_draw }

abbrev idle : Frame
idle = record {
  queue = [];
  executed = [];
  texsrcs = λ id. none;
  gpu_textures = λ id. false;
  bound_at_swap = 0;
}

abbrev two_clears : List (ℕ × GlReq)
two_clears = (3, clear) ∷ (3, clear) ∷ []

abbrev sevens : ℕ → ℕ → Option (List ℕ)
sevens va len = some (replicate len 7)

answers_in_order_example :
    let g = submit sevens false [] 3 (submits sevens idle two_clears) swap in
    (g.queue ≡ [])
    × AllKept sevens
        (((idle.executed ++ idle.queue) ++ map (λ p. p.1) two_clears) ++ (swap ∷ []))
        g.executed
answers_in_order_example = answers_in_order sevens two_clears idle 3 swap refl

-- A large texture of the frame runs with the bytes that memory holds at the swap.
abbrev upload : GlReq
upload = record {
  op = op_teximage2d;
  a = update (update (λ i. 0) 8 0x3000) 10 5;
  input = 0 ∷ 0 ∷ 0 ∷ 0 ∷ [];
  draw = no_draw;
}

abbrev layer : TexSrc
layer = record {
  ptr = 0x3000;
  w = 256;
  h = 256;
  fmt = 0x1908;
  kind = 0x1401;
  len = 4;
  hash = 0;
  dirty_check = true;
  synced_frame = false;
}

late :
    map
      (λ e. e.input)
      (submit sevens false [] 5
        (record idle { queue = upload ∷ []; texsrcs = update (λ id. none) 5 (some layer) })
        swap).executed
    ≡ (7 ∷ 7 ∷ 7 ∷ 7 ∷ []) ∷ [] ∷ []
unfolding submit sync_large_textures sync_queue needs_sync reread frame_flush
late = refl

-- White, with the picture's last row on top.
white : presented (λ k. if ltb k 4 then 255 else 0) 1 2 0 1 ≡ 0xffff
unfolding presented pack565
white = refl

-- A host float that is the first byte of its component.
abbrev first_byte : List ℕ → ℕ → Bool → ℕ
first_byte bytes type norm = get_or bytes 0 0

abbrev empty_req : GlReq
empty_req = record { op = op_clear; a = λ i. 0; input = []; draw = no_draw }

-- Colours of two bytes in the buffer of 8, from `ptr` on.
abbrev coloured : ℕ → Client
coloured ptr = record bound {
  arrays =
      λ i. record { enabled = true; size = 2; type = 0x1401; stride = 0; ptr = ptr; buffer = 1 };
}

-- Four vertices of two bytes fill the buffer.
fills :
    marshal_array first_byte sevens (coloured 0) empty_req 2 0 4
    ≡ fetched
        (record empty_req { input = replicate 32 0 })
        (record { enabled = true; size = 2; off = 0 })
unfolding marshal_array source vertices vertex component comp_bytes cons_some append_some pushed
    bytes_of req_push buffer_lookup type_size
fills = refl

-- The finding: a fifth vertex passes the test, and lies behind the buffer.
overreads : marshal_array first_byte sevens (coloured 0) empty_req 2 0 5 ≡ outside
unfolding marshal_array source vertices vertex component comp_bytes cons_some append_some pushed
    buffer_lookup type_size
overreads = refl
