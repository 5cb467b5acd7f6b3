-- ===== src/RegStub.antt =====
-- The register stubs of qemu/hw/arm/garmin_gpsmap.c (`struct GarminRegStub`): a store of words with
-- accesses of 1, 2 and 4 bytes, a read fixup and a write hook per instance.
-- `regs` is a function of the word's index; `fixup` is the function pointer `read_fixup`, the
-- identity where it is not set, and the write hook runs after `write`.
pub mod Fixup
pub mod Power
mod Tests
use garmin_gpsmap_emu.Prelude.{ℕ, ◌-◌, ◌*◌, ◌^◌}
use garmin_gpsmap_emu.Prelude.{bit_and, bit_or, u32, not32, not64, shl, shr, nonzero}
use garmin_gpsmap_emu.Prelude.{Bool, true, false, ◌&&◌, not, if◌then◌else◌, ◌==◌}
use garmin_gpsmap_emu.Prelude.{List, map, update}

pub record RegStub : Type 0 where
  pub rdclear : ℕ
  pub regs : ℕ → ℕ
  pub selfclear_off : ℕ
  pub selfclear_mask : ℕ

-- `(addr & ~3) >> 2`.
abbrev pub index : ℕ → ℕ
index addr = shr (bit_and addr (not64 3)) 2

unfoldable pub read : (RegStub → ℕ → ℕ → ℕ) → RegStub → ℕ → ℕ → ℕ
read fixup s addr size =
    let stored = bit_and (s.regs (index addr)) (not32 s.rdclear) in
    let word =
      if nonzero s.selfclear_mask && bit_and addr (not64 3) == s.selfclear_off
      then bit_and stored (not32 s.selfclear_mask)
      else stored in
    fixup s addr (bit_and (shr word (bit_and addr 3 * 8)) (2 ^ (size * 8) - 1))

-- `(((1u << (size * 8)) - 1) << shift)`, or all ones for a whole word.
abbrev pub write_mask : ℕ → ℕ → ℕ
write_mask size shift = if size == 4 then 0xffffffff else u32 (shl (2 ^ (size * 8) - 1) shift)

unfoldable pub write : RegStub → ℕ → ℕ → ℕ → RegStub
write s addr val size =
    let idx = index addr in
    let shift = bit_and addr 3 * 8 in
    let mask = write_mask size shift in
    record s {
      regs =
          update s.regs idx
            (bit_or (bit_and (s.regs idx) (not32 mask)) (bit_and (u32 (shl val shift)) mask));
    }

unfoldable pub stub_set : RegStub → ℕ → ℕ → RegStub
stub_set s off val = record s { regs = update s.regs (shr off 2) (u32 val) }

unfoldable pub stub_selfclear : RegStub → ℕ → ℕ → RegStub
stub_selfclear s off mask = record s { selfclear_off = off; selfclear_mask = mask }

-- A CPU: `kicked` is set by `cpu_interrupt` with CPU_INTERRUPT_EXITTB.
pub record Cpu : Type 0 where
  pub cpu_index : ℕ
  pub halted : Bool
  pub kicked : Bool

abbrev pub wake : Cpu → Cpu
wake cs =
    if nonzero cs.cpu_index && cs.halted then record cs { halted = false; kicked = true } else cs

unfoldable pub wkupgen_write_hook : List Cpu → ℕ → ℕ → List Cpu
wkupgen_write_hook cpus addr val =
    if not (addr == 0x800) then cpus else if val == 0 then cpus else map wake cpus
