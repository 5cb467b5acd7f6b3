-- ===== src/Hsmmc.antt =====
-- The OMAP4 HSMMC wrapper of qemu/hw/arm/garmin_gpsmap.c (`struct Omap4Hsmmc`) over QEMU's SDHCI
-- core: the response registers in OMAP order, and the DMA-enable bit masked.
pub mod Response
mod Tests
use garmin_gpsmap_emu.Prelude.{ℕ, ◌-◌, ◌/◌}
use garmin_gpsmap_emu.Prelude.{bit_and, bit_or, u32, not32, not64, shl, shr}
use garmin_gpsmap_emu.Prelude.{Bool, true, false, not, ◌&&◌, if◌then◌else◌, ◌==◌, ltb, leb}
use garmin_gpsmap_emu.Prelude.{List, [], ◌∷◌}
use garmin_gpsmap_emu.Prelude.{update, get_or}

-- The memory region of QEMU's SDHCI device: a read and a write of `size` bytes at an offset.
pub record SdhciOps (S : Type 0) : Type 0 where
  pub dispatch_read : S → ℕ → ℕ → ℕ × S
  pub dispatch_write : S → ℕ → ℕ → ℕ → S

pub record Hsmmc (S : Type 0) : Type 0 where
  pub sdhci : S
  pub wrapregs : ℕ → ℕ
  pub last_r2 : Bool
  pub rsp : List ℕ
  pub rsp_valid : Bool

module _ {S : Type 0} where
  unfoldable pub wrap_read : Hsmmc S → ℕ → ℕ
  wrap_read s addr =
      if addr == 0x000
      then 0x50000000
      else if addr == 0x004
      then 0
      else if addr == 0x010
      then bit_and (s.wrapregs 4) (not32 1)
      else if addr == 0x110
      then bit_and (s.wrapregs 0x44) (not32 2)
      else if addr == 0x114
      then 1
      else s.wrapregs (addr / 4)

  unfoldable pub wrap_write : Hsmmc S → ℕ → ℕ → Hsmmc S
  wrap_write s addr val = record s { wrapregs = update s.wrapregs (addr / 4) (u32 val) }

-- The four words of a 136-bit response, from the SDHCI's words `w3 .. w0` of the bits 127:8.
unfoldable pub reshift : ℕ → ℕ → ℕ → ℕ → List ℕ
reshift w0 w1 w2 w3 =
    u32 (bit_or (shl w0 8) 0x01)
    ∷ u32 (bit_or (shl w1 8) (shr w0 24))
    ∷ u32 (bit_or (shl w2 8) (shr w1 24))
    ∷ u32 (bit_or (shl w3 8) (shr w2 24))
    ∷ []

module _ {S : Type 0} (ops : SdhciOps S) where
  unfoldable pub load_response : Hsmmc S → Hsmmc S
  load_response s =
      let (w0, a) = ops.dispatch_read s.sdhci 0x10 4 in
      let (w1, b) = ops.dispatch_read a 0x14 4 in
      let (w2, c) = ops.dispatch_read b 0x18 4 in
      let (w3, d) = ops.dispatch_read c 0x1c 4 in
      record s { sdhci = d; rsp = reshift w0 w1 w2 w3; rsp_valid = true }

  unfoldable pub core_read : Hsmmc S → ℕ → ℕ → ℕ × Hsmmc S
  core_read s addr size =
      if s.last_r2 && leb 0x10 addr && ltb addr 0x20 && size == 4
      then (let t = if not s.rsp_valid then load_response s else s in
          (get_or t.rsp ((addr - 0x10) / 4) 0, t))
      else (let (v, a) = ops.dispatch_read s.sdhci addr size in (v, record s { sdhci = a }))

  unfoldable pub core_write : Hsmmc S → ℕ → ℕ → ℕ → Hsmmc S
  core_write s addr val size =
      let masked = bit_and val (not64 1) in
      if addr == 0x0c && size == 4
      then record s {
        last_r2 = bit_and (shr val 16) 3 == 1;
        rsp_valid = false;
        sdhci = ops.dispatch_write s.sdhci addr masked size;
      }
      else if addr == 0x0c && size == 2
      then record s { sdhci = ops.dispatch_write s.sdhci addr masked size }
      else if addr == 0x0e && size == 2
      then record s {
        last_r2 = bit_and val 3 == 1;
        rsp_valid = false;
        sdhci = ops.dispatch_write s.sdhci addr val size;
      }
      else record s { sdhci = ops.dispatch_write s.sdhci addr val size }
