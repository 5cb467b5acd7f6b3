-- ===== src/RegStub/Power.antt =====
-- The status registers of the power and clock stubs of qemu/hw/arm/garmin_gpsmap.c, which the
-- firmware polls.
use garmin_gpsmap_emu.Prelude.{ℕ, zero, suc, ◌+◌, ◌-◌, ◌*◌, ◌/◌, ◌%◌, ◌^◌, ◌≤◌, ◌<◌}
use garmin_gpsmap_emu.Prelude.{bit_and, bit_or, u32, not32, shl}
use garmin_gpsmap_emu.Prelude.{◌≡◌, refl, ap, ◌∙◌, arith}
use garmin_gpsmap_emu.Prelude.{if◌then◌else◌, ◌==◌, leb}
use garmin_gpsmap_emu.Prelude.{update, get_or}
use garmin_gpsmap_emu.Prelude.Bits.{bit_and_mask, bit_and-zero}
use garmin_gpsmap_emu.Prelude.Fields.{bit_and_word, bit_or-disjoint}
use garmin_gpsmap_emu.RegStub.{RegStub, index, read, write}
use garmin_gpsmap_emu.RegStub.Fixup.{
  prm_read_fixup, power_status, cm1_dpll_blocks, cm1_read_fixup, prcm_read_fixup_common,
  dpll_status,
}

index_word : (addr : ℕ) → addr < 2 ^ 64 → index addr ≡ addr / 4
index_word addr h = omega (arith, bit_and_word addr h)

lane : (addr : ℕ) → addr % 4 ≡ 0 → bit_and addr 3 ≡ 0
lane addr h = bit_and_mask 2 addr ∙ h

update_self : {A : Type 0} (f : ℕ → A) (n : ℕ) (a : A) → update f n a n ≡ a
update_self f n a = ground arith

stored :
    (old val : ℕ)
    → bit_or (bit_and old (not32 0xffffffff)) (bit_and (u32 (shl val (0 * 8))) 0xffffffff) ≡ u32 val
stored old val = omega (
  arith,
  ap (λ x. bit_or x (bit_and (u32 (shl val (0 * 8))) 0xffffffff)) (bit_and-zero old),
  bit_and_mask 32 (u32 (shl val (0 * 8))),
  bit_or-disjoint 32 0 (bit_and (u32 (shl val (0 * 8))) 0xffffffff),
)

-- A write of a whole word stores the word.
regs-write :
    (s : RegStub) (addr val : ℕ)
    → addr < 2 ^ 64
    → addr % 4 ≡ 0
    → (write s addr val 4).regs (addr / 4) ≡ u32 val
unfolding write
regs-write s addr val h a =
    let i = index_word addr h in
    let l = lane addr a in
    rw (i, l) (update_self s.regs (addr / 4) _ ∙ stored (s.regs (addr / 4)) val)

-- A read through a fixup that does not use the stored word is the fixup's value.
read_fixup :
    (fixup : RegStub → ℕ → ℕ → ℕ) (s : RegStub) (addr v : ℕ)
    → ((val : ℕ) → fixup s addr val ≡ v)
    → read fixup s addr 4 ≡ v
unfolding read
read_fixup fixup s addr v h = h _

prm_status :
    (s : RegStub) (ctrl val : ℕ)
    → 0x300 ≤ ctrl
    → ctrl < 0x1a00
    → ctrl % 0x100 ≡ 0
    → prm_read_fixup s (ctrl + 4) val ≡ power_status (s.regs (ctrl / 4))
unfolding prm_read_fixup
prm_status s ctrl val lo hi a = ground (
  arith,
  bit_and_mask 8 (ctrl + 4),
  ap (λ x. s.regs x) (let e : (ctrl + 4 - 4) / 4 ≡ ctrl / 4 = omega arith in e),
)

status_value : (w : ℕ) → power_status w ≡ (if w % 4 == 3 then 0x3f7 else w % 4)
status_value w = ground (arith, bit_and_mask 2 w)

-- When the firmware writes the state it wants into the PWRSTCTRL register of a power domain, the
-- domain's PWRSTST register, the next word, reads at once as that state (bits 1:0), with the
-- logic and the memories on exactly when the state is ON (3).
power_follows :
    (s : RegStub) (ctrl val : ℕ)
    → 0x300 ≤ ctrl
    → ctrl < 0x1a00
    → ctrl % 0x100 ≡ 0
    → read prm_read_fixup (write s ctrl val 4) (ctrl + 4) 4
      ≡ (if val % 4 == 3 then 0x3f7 else val % 4)
power_follows s ctrl val lo hi a =
    read_fixup prm_read_fixup (write s ctrl val 4) (ctrl + 4) _
      (λ v. prm_status (write s ctrl val 4) ctrl v lo hi a)
    ∙ ap power_status (regs-write s ctrl val (omega arith) (omega arith))
    ∙ status_value (u32 val)
    ∙ ap (λ m. if m == 3 then 0x3f7 else m) (let e : u32 val % 4 ≡ val % 4 = omega arith in e)

-- The status of a DPLL whose block starts at `b`, behind the write of its mode.
dpll_written :
    (s : RegStub) (b val : ℕ)
    → b < 0x1000
    → b % 4 ≡ 0
    → ((t : RegStub) (v : ℕ)
        → cm1_read_fixup t (b + 4) v ≡ dpll_status (bit_and (t.regs (b / 4)) 7))
    → read cm1_read_fixup (write s b val 4) (b + 4) 4 ≡ dpll_status (val % 8)
dpll_written s b val h a f =
    read_fixup cm1_read_fixup (write s b val 4) (b + 4) _ (f (write s b val 4))
    ∙ ap (λ w. dpll_status (bit_and w 7)) (regs-write s b val (omega arith) a)
    ∙ ap dpll_status (bit_and_mask 3 (u32 val) ∙ (let e : u32 val % 8 ≡ val % 8 = omega arith in e))

-- When the firmware writes the mode of one of the five DPLLs of CM1, the DPLL's IDLEST register
-- reads at once as locked (1) for mode 7, as bypassed (0x100) for the modes 4 to 6, and as stopped
-- (0) for the others.
dpll_follows :
    (s : RegStub) (i val : ℕ)
    → i < 5
    → read cm1_read_fixup
        (write s (get_or cm1_dpll_blocks i 0) val 4)
        (get_or cm1_dpll_blocks i 0 + 4)
        4
      ≡ (if val % 8 == 7 then 1 else if leb 4 (val % 8) then 0x100 else 0)
unfolding cm1_read_fixup prcm_read_fixup_common
dpll_follows s zero val h = dpll_written s 0x120 val (omega arith) refl (λ t v. refl)
dpll_follows s (suc zero) val h = dpll_written s 0x160 val (omega arith) refl (λ t v. refl)
dpll_follows s (suc (suc zero)) val h = dpll_written s 0x1a0 val (omega arith) refl (λ t v. refl)
dpll_follows s (suc (suc (suc zero))) val h =
    dpll_written s 0x1e0 val (omega arith) refl (λ t v. refl)
dpll_follows s (suc (suc (suc (suc zero)))) val h =
    dpll_written s 0x220 val (omega arith) refl (λ t v. refl)
dpll_follows s (suc (suc (suc (suc (suc i))))) val h = absurd (omega arith)
