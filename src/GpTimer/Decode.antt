-- ===== src/GpTimer/Decode.antt =====
-- `gpt_decode` of qemu/hw/arm/garmin_gpsmap.c: the two register layouts.
use garmin_gpsmap_emu.Prelude.{ℕ}
use garmin_gpsmap_emu.Prelude.{Bool, true, false, if◌then◌else◌, ◌==◌}

-- The logical register ids.
pub data Reg : Type 0 where
  tidr tiocp_cfg tistat irq_eoi irqstatus_raw irqstatus irqenable_set irqenable_clr : Reg
  irqwakeen tclr tcrr tldr ttgr twps tmar tcar1 tsicr tcar2 tpir tnir tcvr tocr towr : Reg
  unknown : Reg

unfoldable pub decode : Bool → ℕ → Reg
decode true addr =
    if addr == 0x00
    then tidr
    else if addr == 0x10
    then tiocp_cfg
    else if addr == 0x14
    then tistat
    else if addr == 0x18
    then irqstatus
    else if addr == 0x1c
    then irqenable_set
    else if addr == 0x20
    then irqwakeen
    else if addr == 0x24
    then tclr
    else if addr == 0x28
    then tcrr
    else if addr == 0x2c
    then tldr
    else if addr == 0x30
    then ttgr
    else if addr == 0x34
    then twps
    else if addr == 0x38
    then tmar
    else if addr == 0x3c
    then tcar1
    else if addr == 0x40
    then tsicr
    else if addr == 0x44
    then tcar2
    else if addr == 0x48
    then tpir
    else if addr == 0x4c
    then tnir
    else if addr == 0x50
    then tcvr
    else if addr == 0x54
    then tocr
    else if addr == 0x58
    then towr
    else unknown
decode false addr =
    if addr == 0x00
    then tidr
    else if addr == 0x10
    then tiocp_cfg
    else if addr == 0x20
    then irq_eoi
    else if addr == 0x24
    then irqstatus_raw
    else if addr == 0x28
    then irqstatus
    else if addr == 0x2c
    then irqenable_set
    else if addr == 0x30
    then irqenable_clr
    else if addr == 0x34
    then irqwakeen
    else if addr == 0x38
    then tclr
    else if addr == 0x3c
    then tcrr
    else if addr == 0x40
    then tldr
    else if addr == 0x44
    then ttgr
    else if addr == 0x48
    then twps
    else if addr == 0x4c
    then tmar
    else if addr == 0x50
    then tcar1
    else if addr == 0x54
    then tsicr
    else if addr == 0x58
    then tcar2
    else unknown
