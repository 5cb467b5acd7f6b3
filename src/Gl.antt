-- ===== src/Gl.antt =====
-- The interception of OpenGL ES calls, qemu/hw/arm/garmin_gl.c with garmin_gl.h: the code that is
-- written over a driver's entry point, and the trap that it takes. Bytes are functions of the
-- address, the host's part of a call is a parameter.
pub mod Op
pub mod Client
pub mod Buffers
pub mod Safe
pub mod Sized
pub mod Frame
pub mod Order
pub mod Render
pub mod Host
pub mod Palette
pub mod Table
pub mod Texture
pub mod Placed
pub mod Vertex
pub mod Inside
pub mod Thumb
pub mod Hook
mod Tests
use garmin_gpsmap_emu.Prelude.{ℕ, zero, suc, ◌+◌, ◌-◌, ◌*◌, ◌/◌, min}
use garmin_gpsmap_emu.Prelude.{bit_and, bit_or, u32, shl, shr}
use garmin_gpsmap_emu.Prelude.{Bool, true, false, if◌then◌else◌, ◌==◌, ltb, leb}
use garmin_gpsmap_emu.Prelude.{List, [], ◌∷◌, map}
use garmin_gpsmap_emu.Prelude.{update, length, get_or, set}

abbrev pub mmio_base : ℕ
mmio_base = 0x5600f000

abbrev pub result_off : ℕ
result_off = 0xffc

abbrev pub max_hooks : ℕ
max_hooks = result_off / 4

unfoldable pub put16 : (ℕ → ℕ) → ℕ → ℕ → ℕ → ℕ
put16 p at v = update (update p at (bit_and v 0xff)) (at + 1) (shr v 8)

unfoldable pub enc_mov_imm16 : (ℕ → ℕ) → ℕ → Bool → ℕ → ℕ → ℕ → ℕ
enc_mov_imm16 p at top rd imm =
    let imm4 = shr imm 12 in
    let i = bit_and (shr imm 11) 1 in
    let imm3 = bit_and (shr imm 8) 7 in
    let imm8 = bit_and imm 0xff in
    let first = put16 p at (bit_or (bit_or (if top then 0xf2c0 else 0xf240) (shl i 10)) imm4) in
    put16 first (at + 2) (bit_or (bit_or (shl imm3 12) (shl rd 8)) imm8)

-- The 18 bytes from `at` on; the two fields that `|` joins do not overlap below `max_hooks` slots.
unfoldable pub enc_trampoline : (ℕ → ℕ) → ℕ → ℕ → ℕ → ℕ
enc_trampoline p at slot =
    let low = enc_mov_imm16 p at false 12 (bit_and mmio_base 0xffff) in
    let high = enc_mov_imm16 low (at + 4) true 12 (shr mmio_base 16) in
    let trap = put16 (put16 high (at + 8) 0xf8cc) (at + 10) (bit_or 0xc000 (slot * 4)) in
    let answer = put16 (put16 trap (at + 12) 0xf8dc) (at + 14) (bit_or 0x0000 result_off) in
    put16 answer (at + 16) 0x4770

pub record GlHook : Type 0 where
  pub addr : ℕ
  pub nargs : ℕ
  pub calls : ℕ

abbrev pub no_hook : GlHook
no_hook = record { addr = 0; nargs = 0; calls = 0 }

pub record CodePatch : Type 0 where
  pub addr : ℕ
  pub bytes : List ℕ

-- `dispatch` stands for `gl_dispatch` of a slot's hook at its arguments.
pub record Gl (S : Type 0) : Type 0 where
  pub hooks : List GlHook
  pub patches : List CodePatch
  pub result : ℕ
  pub inner : S

unfoldable pub write_bytes : (ℕ → ℕ) → ℕ → List ℕ → ℕ → ℕ
write_bytes memory at [] = memory
write_bytes memory at (b ∷ rest) = write_bytes (update memory at b) (at + 1) rest

unfoldable pub write_trampolines : (ℕ → ℕ) → ℕ → List GlHook → ℕ → ℕ
write_trampolines memory slot [] = memory
write_trampolines memory slot (h ∷ rest) =
    write_trampolines (enc_trampoline memory h.addr slot) (suc slot) rest

unfoldable pub write_patches : (ℕ → ℕ) → List CodePatch → ℕ → ℕ
write_patches memory [] = memory
write_patches memory (c ∷ rest) = write_patches (write_bytes memory c.addr c.bytes) rest

-- The arguments of a call: four registers, then the stack.
unfoldable pub arguments : (ℕ → ℕ) → (ℕ → ℕ) → ℕ → ℕ → List ℕ
arguments regs word zero i = []
arguments regs word (suc n) i =
    (if ltb i 4 then regs i else word (u32 (regs 13 + 4 * (i - 4)))) ∷ arguments regs word n (suc i)

module _ {S : Type 0} (dispatch : S → ℕ → List ℕ → S × ℕ) (word : ℕ → ℕ) where
  unfoldable pub reset : (ℕ → ℕ) → Gl S → (ℕ → ℕ) × Gl S
  reset memory g = (
    write_patches (write_trampolines memory 0 g.hooks) g.patches,
    record g { hooks = map {A = GlHook} (λ h. record h { calls = 0 }) g.hooks },
  )

  unfoldable pub gl_trap : (ℕ → ℕ) → ℕ → Gl S → Gl S
  gl_trap regs slot g =
      let h = get_or g.hooks slot no_hook in
      let (inner, result) = dispatch g.inner slot (arguments regs word (min h.nargs 16) 0) in
      if leb (length g.hooks) slot then record g { result = 0 } else record g {
        hooks = set g.hooks slot (record h { calls = h.calls + 1 });
        result = result;
        inner = inner;
      }

  unfoldable pub mmio_read : Gl S → ℕ → ℕ
  mmio_read g addr = if addr == result_off then g.result else 0

  unfoldable pub mmio_write : (ℕ → ℕ) → Gl S → ℕ → Gl S
  mmio_write regs g addr = if ltb addr result_off then gl_trap regs (addr / 4) g else g
