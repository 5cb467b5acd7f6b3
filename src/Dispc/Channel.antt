-- ===== src/Dispc/Channel.antt =====
-- The registers of the display controller after a frame, digit by digit.
use garmin_gpsmap_emu.Prelude.{ℕ, ◌-◌, ◌/◌, ◌^◌, ◌<◌, min, max}
use garmin_gpsmap_emu.Prelude.{bit_and, bit_or, not32, not64, has}
use garmin_gpsmap_emu.Prelude.{◌≡◌, ap, ◌∙◌, arith}
use garmin_gpsmap_emu.Prelude.{if◌then◌else◌, ◌==◌}
use garmin_gpsmap_emu.Prelude.Bits.{bit, bit_le, bit-and, bit-or, bit-not32, bit-clear}
use garmin_gpsmap_emu.Prelude.Bits.{bit-eq_zero, eq_of_bits}
use garmin_gpsmap_emu.Prelude.Bits.{bit_and-le_left, bit_or-lt, has-flag}
use garmin_gpsmap_emu.Dispc.{Dispc, reg, irq_lcd, irq_tv, irq_lcd2}
use garmin_gpsmap_emu.Dispc.{update_irq, channel, vsync_cb}

unfoldable pub cleared : ℕ → ℕ → ℕ → ℕ
cleared x e g = if has x (2 ^ e) then bit_and x (not32 (2 ^ g)) else x

pub bit-cleared :
    (x e g k : ℕ)
    → k < 32
    → bit (cleared x e g) k ≡ min (bit x k) (1 - min (bit x e) (bit (2 ^ g) k))
unfolding cleared
bit-cleared x e g k h = ground (
  arith,
  has-flag e x,
  bit-and x (not32 (2 ^ g)) k,
  bit-not32 (2 ^ g) k h,
  bit_le x k,
  bit_le x e,
  bit_le (2 ^ g) k,
)

-- The bits that a channel adds.
unfoldable pub raised : ℕ → ℕ → ℕ → ℕ → ℕ
raised x e mask irq = if has x (2 ^ e) then bit_or irq mask else irq

channel_at :
    (c e g mask : ℕ) (s : Dispc) (irq i : ℕ)
    → (channel c (2 ^ e) (2 ^ g) mask (s, irq)).0.regs i
      ≡ (if i == c / 4 then cleared (reg s c) e g else s.regs i)
unfolding channel cleared
channel_at c e g mask s irq i = ground arith

channel_irq :
    (c e g mask : ℕ) (s : Dispc) (irq : ℕ)
    → (channel c (2 ^ e) (2 ^ g) mask (s, irq)).1 ≡ raised (reg s c) e mask irq
unfolding channel raised
channel_irq c e g mask s irq = ground arith

pub frame_regs :
    (s : Dispc) (now : ℕ)
    → let c = cleared (reg s 0x40) 0 5 in
      (reg (vsync_cb s now) 0x40 ≡ cleared c 1 6)
      × (reg (vsync_cb s now) 0x238 ≡ cleared (reg s 0x238) 0 5)
      × (reg (vsync_cb s now) 0x18
          ≡ bit_or (reg s 0x18) (
              raised
                (reg s 0x238)
                0
                irq_lcd2
                (raised c 1 irq_tv (raised (reg s 0x40) 0 irq_lcd 0))))
      × ((vsync_cb s now).irq ≡ has (reg (vsync_cb s now) 0x18) (reg s 0x1c))
unfolding vsync_cb update_irq
frame_regs s now =
    let a = channel 0x40 (2 ^ 0) (2 ^ 5) irq_lcd (s, 0) in
    let b = channel 0x40 (2 ^ 1) (2 ^ 6) irq_tv a in
    let first : (i : ℕ) → a.0.regs i ≡ (if i == 16 then cleared (reg s 0x40) 0 5 else s.regs i) =
      channel_at 0x40 0 5 irq_lcd s 0 in
    let second : (i : ℕ)
        → b.0.regs i ≡ (if i == 16 then cleared (a.0.regs 16) 1 6 else a.0.regs i) =
      channel_at 0x40 1 6 irq_tv a.0 a.1 in
    let third = channel_at 0x238 0 5 irq_lcd2 b.0 b.1 in
    let one = channel_irq 0x40 0 5 irq_lcd s 0 in
    let two = channel_irq 0x40 1 6 irq_tv a.0 a.1 in
    let three = channel_irq 0x238 0 5 irq_lcd2 b.0 b.1 in
    let c = channel 0x238 (2 ^ 0) (2 ^ 5) irq_lcd2 b in
    let all : c.1
        ≡ raised (reg s 0x238) 0 irq_lcd2
            (raised (cleared (reg s 0x40) 0 5) 1 irq_tv (raised (reg s 0x40) 0 irq_lcd 0)) =
      three
      ∙ ap (λ x. raised x 0 irq_lcd2 b.1) (second 142 ∙ first 142)
      ∙ ap (λ x. raised (reg s 0x238) 0 irq_lcd2 x)
          (two
            ∙ ap (λ x. raised x 1 irq_tv a.1) (first 16)
            ∙ ap (λ x. raised (cleared (reg s 0x40) 0 5) 1 irq_tv x) one) in
    (
      third 16 ∙ second 16 ∙ ap (λ x. cleared x 1 6) (first 16),
      third 142 ∙ ap (λ x. cleared x 0 5) (second 142 ∙ first 142),
      ap (λ x. bit_or x c.1) (third 6 ∙ second 6 ∙ first 6) ∙ ap (λ x. bit_or (reg s 0x18) x) all,
      ap (λ x. has (bit_or (c.0.regs 6) c.1) x) (third 7 ∙ second 7 ∙ first 7),
    )

pub bit-raised :
    (x e mask irq k : ℕ)
    → bit (raised x e mask irq) k ≡ max (bit irq k) (min (bit x e) (bit mask k))
unfolding raised
bit-raised x e mask irq k =
    ground (arith, has-flag e x, bit-or irq mask k, bit_le irq k, bit_le x e, bit_le mask k)

pub raised-lt : (x e mask irq : ℕ) → mask < 2 ^ 32 → irq < 2 ^ 32 → raised x e mask irq < 2 ^ 32
unfolding raised
raised-lt x e mask irq a b = ground (arith, bit_or-lt 32 irq mask b a)

-- A word without its own bits.
pub and_not_self : (x : ℕ) → x < 2 ^ 32 → bit_and x (not64 x) ≡ 0
and_not_self x h =
    eq_of_bits 32 (bit_and x (not64 x)) 0 (omega (arith, bit_and-le_left x (not64 x))) (omega arith)
      (λ k.
        omega (arith, bit-clear x x k h, bit_le x k, bit-eq_zero 0 k 0 (omega arith) (omega arith)))

pub bit_and-zero_left : (b : ℕ) → bit_and 0 b ≡ 0
bit_and-zero_left b = omega (arith, bit_and-le_left 0 b)
