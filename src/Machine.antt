-- ===== src/Machine.antt =====
-- The machine of qemu/hw/arm/garmin_gpsmap.c, `gpsmap_init`: the memory map, the interrupt lines, the
-- slaves of the I2C buses and the way the CPUs start. A region is an address, a size and a priority;
-- QEMU's priorities -1000, 0, 1 and 10 are written 0, 1000, 1001 and 1010. The sizes of the regions that
-- QEMU's own devices bring are parameters.
pub mod Stubs
pub mod Map
pub mod Lines
pub mod Slaves
pub mod Preset
mod Tests
use garmin_gpsmap_emu.Prelude.{ℕ, zero, suc, ◌+◌, Bool, true, false, ◌&&◌, not}
use garmin_gpsmap_emu.Prelude.{if◌then◌else◌, ◌==◌, ltb, List, [], ◌∷◌}
use garmin_gpsmap_emu.Prelude.{Option, none, some}

pub record Region : Type 0 where
  pub base : ℕ
  pub size : ℕ
  pub priority : ℕ

-- `memory_region_add_subregion` and `sysbus_mmio_map`; `create_unimplemented_device`.
abbrev pub region : ℕ → ℕ → Region
region base size = record { base = base; size = size; priority = 1000 }

abbrev pub unimplemented : ℕ → ℕ → Region
unimplemented base size = record { base = base; size = size; priority = 0 }

-- The sizes that the machine's source does not say.
pub record Sizes : Type 0 where
  pub ram_size : ℕ
  pub mpcore : ℕ
  pub l2x0 : ℕ
  pub lan9118 : ℕ
  pub serial : ℕ

abbrev pub memories : ℕ → List Region
memories ram_size =
    region 0x80000000 ram_size
    ∷ region 0x40300000 0x10000
    ∷ region 0x40000000 0x10000
    ∷ region 0 0x10000
    ∷ region 0x4a326000 0x2000
    ∷ region 0x08000000 0x1000000
    ∷ []

abbrev pub catch_all : List Region
catch_all =
    unimplemented 0x44000000 0x01000000
    ∷ unimplemented 0x48000000 0x00400000
    ∷ unimplemented 0x49000000 0x00100000
    ∷ unimplemented 0x4a000000 0x01000000
    ∷ unimplemented 0x4c000000 0x04000000
    ∷ unimplemented 0x50000000 0x01000000
    ∷ unimplemented 0x56010000 0x01ff0000
    ∷ unimplemented 0x58000000 0x01000000
    ∷ unimplemented 0x5a000000 0x02000000
    ∷ unimplemented 0x40100000 0x00100000
    ∷ unimplemented 0x40400000 0x00100000
    ∷ []

-- The timers: address, `legacy`, frequency and interrupt.
pub record TimerInit : Type 0 where
  pub base : ℕ
  pub legacy : Bool
  pub freq : ℕ
  pub irq : ℕ

abbrev pub make_gpt : ℕ → Bool → ℕ → ℕ → TimerInit
make_gpt base legacy freq irq = record { base = base; legacy = legacy; freq = freq; irq = irq }

abbrev pub timers : List TimerInit
timers =
    make_gpt 0x4a318000 true 32768 37
    ∷ make_gpt 0x48032000 true 38400000 38
    ∷ make_gpt 0x48034000 false 38400000 39
    ∷ make_gpt 0x48036000 false 38400000 40
    ∷ make_gpt 0x49038000 false 38400000 41
    ∷ make_gpt 0x4903a000 false 38400000 42
    ∷ make_gpt 0x4903c000 false 38400000 43
    ∷ make_gpt 0x4903e000 false 38400000 44
    ∷ make_gpt 0x4803e000 false 38400000 45
    ∷ make_gpt 0x48086000 true 38400000 46
    ∷ make_gpt 0x48088000 false 38400000 47
    ∷ []

-- A device with an address and an interrupt.
pub record Wired : Type 0 where
  pub base : ℕ
  pub irq : ℕ

abbrev pub wired : ℕ → ℕ → Wired
wired base irq = record { base = base; irq = irq }

abbrev pub uarts : List Wired
uarts = wired 0x4806a000 72 ∷ wired 0x4806c000 73 ∷ wired 0x48020000 74 ∷ wired 0x4806e000 70 ∷ []

-- The banks with the levels of their pins at the start.
abbrev pub gpios : List (Wired × ℕ)
gpios =
    (wired 0x4a310000 29, 0xffffffff)
    ∷ (wired 0x48055000 30, 0xffbfffff)
    ∷ (wired 0x48057000 31, 0xfcbfffff)
    ∷ (wired 0x48059000 32, 0xfff5ffef)
    ∷ (wired 0x4805b000 33, 0xffffffff)
    ∷ (wired 0x4805d000 34, 0xffffffff)
    ∷ []

abbrev pub i2cs : List Wired
i2cs = wired 0x48070000 56 ∷ wired 0x48072000 57 ∷ wired 0x48060000 61 ∷ wired 0x48350000 62 ∷ []

-- The card controllers; the second holds the eMMC.
abbrev pub hsmmcs : List (Wired × Bool)
hsmmcs =
    (wired 0x4809c000 83, false)
    ∷ (wired 0x480b4000 86, true)
    ∷ (wired 0x480ad000 94, false)
    ∷ (wired 0x480d1000 96, false)
    ∷ (wired 0x480d5000 59, false)
    ∷ []

-- The mailbox and the display controller.
abbrev pub mailbox : Wired
mailbox = wired 0x4a0f4000 26

abbrev pub dispc : Wired
dispc = wired 0x58001000 25

abbrev pub sync32k : ℕ
sync32k = 0x4a304000

abbrev pub ducati_l2ram : Region
ducati_l2ram = region 0x55020000 0x10000

-- The system DMA with its four lines.
abbrev pub sdma : ℕ × List ℕ
sdma = (0x4a056000, 12 ∷ 13 ∷ 14 ∷ 15 ∷ [])

abbrev pub sgx_irq : ℕ
sgx_irq = 21

-- The UARTs on the memory controller, above its window, with their pins of the third bank.
abbrev pub ext_uarts : ℕ → List (Region × ℕ)
ext_uarts serial =
    (record { base = 0x10000000; size = serial; priority = 1001 }, 24)
    ∷ (record { base = 0x10000100; size = serial; priority = 1001 }, 25)
    ∷ []

abbrev pub lan9118 : ℕ → Region × ℕ
lan9118 size = (region 0x0c000000 size, 35)

-- The window of the trap that `garmin_gl_mmio_init` lays over the graphics processor.
abbrev pub gl_window : Region
gl_window = record { base = 0x5600f000; size = 0x1000; priority = 1010 }

abbrev pub page : Wired → Region
page w = region w.base 0x1000

-- More than two CPUs are refused.
unfoldable pub cpus : ℕ → Option ℕ
cpus ncpu = if ltb 2 ncpu then none else some ncpu

-- The address that CPU `i` starts at: the first in the code that leads to the image, the others in
-- that which parks them.
unfoldable pub reset_pc : ℕ → ℕ
reset_pc zero = 0x40000000 + 0x90
reset_pc (suc i) = 0x40000000 + 0x40

-- The entry address of the image, unless another is asked for: both images are linked for it.
abbrev pub link_addr : ℕ
link_addr = 0x80050000

unfoldable pub choose_entry : Bool → Bool → ℕ → ℕ
choose_entry kernel firmware entry =
    if firmware && not kernel && entry == link_addr then link_addr else entry

-- The bytes of the boot configuration with no file: a mark at the place of each of its copies.
abbrev pub write_bootcfg : List (ℕ × List ℕ)
write_bootcfg =
    (0x08000000 + 0x8000, 0x5a ∷ 0xa5 ∷ 0x5a ∷ 0xa5 ∷ [])
    ∷ (0x08000000 + 0xc000, 0x5a ∷ 0xa5 ∷ 0x5a ∷ 0xa5 ∷ [])
    ∷ []
