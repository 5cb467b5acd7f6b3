-- ===== src/Sdma/Regs.antt =====
-- `sdma_read` and `sdma_write` of qemu/hw/arm/garmin_gpsmap.c. Accesses are of aligned words.
use garmin_gpsmap_emu.Prelude.{ℕ, ◌+◌, ◌-◌, ◌*◌, ◌/◌, ◌%◌}
use garmin_gpsmap_emu.Prelude.{bit_and, u32, not32, not64, nonzero, has}
use garmin_gpsmap_emu.Prelude.{Bool, false, not, ◌&&◌, if◌then◌else◌, ◌==◌, ltb, leb}
use garmin_gpsmap_emu.Prelude.{update}
use garmin_gpsmap_emu.Sdma.{MemOps, Chan, Sdma, nch, ccr_enable, update_irq, start}

unfoldable pub read_chan : Chan → ℕ → ℕ
read_chan c off =
    if off == 0x00
    then c.ccr
    else if off == 0x04
    then c.clnk
    else if off == 0x08
    then c.cicr
    else if off == 0x0c
    then c.csr
    else if off == 0x10
    then c.csdp
    else if off == 0x14
    then c.cen
    else if off == 0x18
    then c.cfn
    else if off == 0x1c
    then c.cssa
    else if off == 0x20
    then c.cdsa
    else if off == 0x24
    then c.csei
    else if off == 0x28
    then c.csfi
    else if off == 0x2c
    then c.cdei
    else if off == 0x30
    then c.cdfi
    else if off == 0x34
    then c.csac
    else if off == 0x38
    then c.cdac
    else if off == 0x3c
    then (if c.active then c.remaining % (if nonzero c.cen then c.cen else 1) else 0)
    else if off == 0x40
    then (if c.active then (if nonzero c.cen then c.remaining / c.cen else 0) else 0)
    else if off == 0x44
    then c.color
    else if off == 0x50
    then c.cdp
    else if off == 0x54
    then c.cndp
    else if off == 0x58
    then c.ccdn
    else 0

-- The channel registers that a write only stores.
unfoldable pub store_chan : Chan → ℕ → ℕ → Chan
store_chan c off val =
    if off == 0x04
    then record c { clnk = u32 val }
    else if off == 0x08
    then record c { cicr = u32 val }
    else if off == 0x0c
    then record c { csr = bit_and c.csr (not64 val) }
    else if off == 0x10
    then record c { csdp = u32 val }
    else if off == 0x14
    then record c { cen = u32 val }
    else if off == 0x18
    then record c { cfn = u32 val }
    else if off == 0x1c
    then record c { cssa = u32 val }
    else if off == 0x20
    then record c { cdsa = u32 val }
    else if off == 0x24
    then record c { csei = u32 val }
    else if off == 0x28
    then record c { csfi = u32 val }
    else if off == 0x2c
    then record c { cdei = u32 val }
    else if off == 0x30
    then record c { cdfi = u32 val }
    else if off == 0x44
    then record c { color = u32 val }
    else if off == 0x50
    then record c { cdp = u32 val }
    else if off == 0x54
    then record c { cndp = u32 val }
    else if off == 0x58
    then record c { ccdn = u32 val }
    else c

abbrev pub in_chan : ℕ → Bool
in_chan addr = leb 0x80 addr && ltb addr (0x80 + nch * 0x60)

module _ {M : Type 0} where
  unfoldable pub read : Sdma M → ℕ → ℕ
  read s addr =
      if in_chan addr
      then read_chan (s.ch ((addr - 0x80) / 0x60)) ((addr - 0x80) % 0x60)
      else if addr == 0x00
      then 0x00010900
      else if leb 0x08 addr && leb addr 0x14
      then s.irqstatus ((addr - 8) / 4)
      else if leb 0x18 addr && leb addr 0x24
      then s.irqenable ((addr - 0x18) / 4)
      else if addr == 0x28
      then 1
      else if addr == 0x2c
      then bit_and s.ocp_sysconfig (not32 2)
      else if addr == 0x64
      then 0x000c00ff
      else if addr == 0x6c
      then 0x000001ff
      else if addr == 0x70
      then 0x000000f3
      else if addr == 0x74
      then 0x00003ffe
      else if addr == 0x78
      then s.gcr
      else 0

module _ {M : Type 0} (ops : MemOps M) (bases : ℕ → ℕ) where
  unfoldable pub write_ccr : Sdma M → ℕ → ℕ → ℕ → Sdma M
  write_ccr s n val now =
      let c = s.ch n in
      let was = has c.ccr ccr_enable in
      let t = record s { ch = update s.ch n (record c { ccr = u32 val }) } in
      if not was && has val ccr_enable
      then start ops bases t n now
      else if was && not (has val ccr_enable)
      then record s { ch = update s.ch n (record c { ccr = u32 val; active = false }) }
      else t

  unfoldable pub write : Sdma M → ℕ → ℕ → ℕ → Sdma M
  write s addr val now =
      if in_chan addr
      then (let n = (addr - 0x80) / 0x60 in
          let off = (addr - 0x80) % 0x60 in
          if off == 0
          then write_ccr s n val now
          else record s { ch = update s.ch n (store_chan (s.ch n) off val) })
      else if leb 0x08 addr && leb addr 0x14
      then update_irq (record s {
        irqstatus =
            update s.irqstatus ((addr - 8) / 4)
              (bit_and (s.irqstatus ((addr - 8) / 4)) (not64 val));
      })
      else if leb 0x18 addr && leb addr 0x24
      then update_irq (record s { irqenable = update s.irqenable ((addr - 0x18) / 4) (u32 val) })
      else if addr == 0x2c
      then record s { ocp_sysconfig = u32 val }
      else if addr == 0x78
      then record s { gcr = u32 val }
      else s
