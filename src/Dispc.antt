-- ===== src/Dispc.antt =====
-- The OMAP4 display controller of qemu/hw/arm/garmin_gpsmap.c (`struct Omap4Dispc`): the registers,
-- the 60 Hz callback and the reset. Accesses are of words.
-- `irq` is the level last given to `qemu_set_irq`, `vsync` the deadline last given to `timer_mod`;
-- `scanout` is the address that `garmin_gl_set_scanout` of qemu/hw/arm/garmin_gl.c keeps for the
-- renderer. Log lines are left out.
mod Channel
pub mod Draw
pub mod Frame
pub mod Scanout
mod Tests
use garmin_gpsmap_emu.Prelude.{ℕ, ◌+◌, ◌*◌, ◌/◌, ◌^◌}
use garmin_gpsmap_emu.Prelude.{bit_and, bit_or, u32, not32, not64, has}
use garmin_gpsmap_emu.Prelude.{Bool, true, ◌||◌, if◌then◌else◌, ◌==◌}
use garmin_gpsmap_emu.Prelude.{Option, some}
use garmin_gpsmap_emu.Prelude.{update}

pub record Dispc : Type 0 where
  pub irq : Bool
  pub vsync : Option ℕ
  pub regs : ℕ → ℕ
  pub invalidate : Bool
  pub cur_w : ℕ
  pub cur_h : ℕ
  pub scanout : ℕ

-- FRAMEDONE and VSYNC; EVSYNC_EVEN, EVSYNC_ODD and FRAMEDONETV; FRAMEDONE2 and VSYNC2.
abbrev pub irq_lcd : ℕ
irq_lcd = 0x3

abbrev pub irq_tv : ℕ
irq_tv = 0x100000c

abbrev pub irq_lcd2 : ℕ
irq_lcd2 = 0x440000

-- NANOSECONDS_PER_SECOND / 60.
abbrev pub frame_ns : ℕ
frame_ns = 1000000000 / 60

-- The macro R.
abbrev pub reg : Dispc → ℕ → ℕ
reg s off = s.regs (off / 4)

abbrev pub set_reg : Dispc → ℕ → ℕ → Dispc
set_reg s off v = record s { regs = update s.regs (off / 4) v }

unfoldable pub update_irq : Dispc → Dispc
update_irq s = record s { irq = has (reg s 0x18) (reg s 0x1c) }

-- A channel's part of the callback: the bits it raises, and its GO bit cleared.
unfoldable pub channel : ℕ → ℕ → ℕ → ℕ → Dispc × ℕ → Dispc × ℕ
channel control enable go mask (s, irq) =
    if has (reg s control) enable
    then (set_reg s control (bit_and (reg s control) (not32 go)), bit_or irq mask)
    else (s, irq)

unfoldable pub vsync_cb : Dispc → ℕ → Dispc
vsync_cb s now =
    let lcd = channel 0x40 1 (2 ^ 5) irq_lcd (s, 0) in
    let tv = channel 0x40 2 (2 ^ 6) irq_tv lcd in
    let (t, irq) = channel 0x238 1 (2 ^ 5) irq_lcd2 tv in
    record (update_irq (set_reg t 0x18 (bit_or (reg t 0x18) irq))) { vsync = some (now + frame_ns) }

unfoldable pub read : Dispc → ℕ → ℕ
read s addr =
    if addr == 0x00
    then 0x00000040
    else if addr == 0x10
    then bit_and (reg s 0x10) (not32 2)
    else if addr == 0x14
    then 1
    else if addr == 0x5c
    then 0
    else if addr == 0xa8
    then 0x00000400
    else reg s (bit_and addr (not32 3))

-- The registers of the pipeline whose writes redraw the screen.
abbrev pub is_gfx : ℕ → Bool
is_gfx addr =
    addr == 0x80
    || addr == 0x84
    || addr == 0x88
    || addr == 0x8c
    || addr == 0xa0
    || addr == 0xac
    || addr == 0xb0
    || addr == 0x7c
    || addr == 0x3cc

unfoldable pub write : Dispc → ℕ → ℕ → ℕ → Dispc
write s addr val now =
    if addr == 0x18
    then update_irq (set_reg s 0x18 (bit_and (reg s 0x18) (not64 val)))
    else if addr == 0x1c
    then update_irq (set_reg s 0x1c (u32 val))
    else if addr == 0x40 || addr == 0x238
    then (let t = record (set_reg s addr (u32 val)) { invalidate = true } in
        if has val 3 then record t { vsync = some (now + frame_ns) } else t)
    else if is_gfx addr
    then (let t = record (set_reg s addr (u32 val)) { invalidate = true } in
        if addr == 0x80 then record t { scanout = u32 val } else t)
    else set_reg s (bit_and addr (not32 3)) (u32 val)

-- What the boot block leaves behind: LCD2 on, 1024x600 RGB16 at the first framebuffer.
unfoldable pub reset_regs : ℕ → ℕ
reset_regs i =
    if i == 0x238 / 4
    then 0x00000001
    else if i == 0x3cc / 4
    then 599 * 2 ^ 16 + 1023
    else if i == 0x80 / 4
    then 0xbed46000
    else if i == 0x84 / 4
    then 0xbefc6000
    else if i == 0x8c / 4
    then 599 * 2 ^ 16 + 1023
    else if i == 0xa0 / 4
    then 0x4e00488d
    else if i == 0xac / 4
    then 1
    else if i == 0xb0 / 4
    then 1
    else if i == 0x620 / 4
    then 0x00000004
    else 0

unfoldable pub reset : Dispc → ℕ → Dispc
reset s now = record s { regs = reset_regs; vsync = some (now + frame_ns) }

unfoldable pub gfx_invalidate : Dispc → Dispc
gfx_invalidate s = record s { invalidate = true }

unfoldable pub post_load : Dispc → Dispc
post_load s = record s { invalidate = true; cur_w = 0; cur_h = 0 }
