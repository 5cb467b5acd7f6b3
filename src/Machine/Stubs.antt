-- ===== src/Machine/Stubs.antt =====
-- The register stubs that `gpsmap_init` of qemu/hw/arm/garmin_gpsmap.c makes, with their values at
-- power-up. A stub's fixup and hook are set there too and belong to the modules of the stubs.
use garmin_gpsmap_emu.Prelude.{ℕ, List, [], ◌∷◌, ◌++◌}
use garmin_gpsmap_emu.RegStub.{RegStub, stub_set, stub_selfclear}

pub record StubInit : Type 0 where
  pub base : ℕ
  pub size : ℕ
  pub presets : List (ℕ × ℕ)
  pub selfclear_off : ℕ
  pub selfclear_mask : ℕ

abbrev pub make_stub : ℕ → ℕ → StubInit
make_stub base size = record {
  base = base;
  size = size;
  presets = [];
  selfclear_off = 0;
  selfclear_mask = 0;
}

-- The calls of `stub_set` and of `stub_selfclear` on a stub, in order.
abbrev pub with_presets : StubInit → List (ℕ × ℕ) → StubInit
with_presets s presets = record s { presets = presets }

abbrev pub with_selfclear : StubInit → ℕ → ℕ → StubInit
with_selfclear s off mask = record s { selfclear_off = off; selfclear_mask = mask }

unfoldable pub apply_presets : RegStub → List (ℕ × ℕ) → RegStub
apply_presets s [] = s
apply_presets s ((off, val) ∷ rest) = apply_presets (stub_set s off val) rest

-- The stub as the machine starts with it.
unfoldable pub stub_of : StubInit → RegStub
stub_of s =
    stub_selfclear
      (apply_presets (record { rdclear = 0; regs = λ i. 0; selfclear_off = 0; selfclear_mask = 0 })
        s.presets)
      s.selfclear_off s.selfclear_mask

abbrev pub ctrl_core : StubInit
ctrl_core = with_presets (make_stub 0x4a002000 0x1000) (
    (0x200, 0x12345678)
    ∷ (0x204, 0x2b94e02f)
    ∷ (0x208, 0x9abcdef0)
    ∷ (0x20c, 0x13579bdf)
    ∷ (0x210, 0x2468ace0)
    ∷ (0x214, 0x00000000)
    ∷ (0x218, 0x00000000)
    ∷ (0x2c4, 0x00000000)
    ∷ [])

abbrev pub cm1 : StubInit
cm1 = with_presets (make_stub 0x4a004000 0x2000) (
    (0x100, 0x00000110)
    ∷ (0x108, 0x00000501)
    ∷ (0x110, 0x00000000)
    ∷ (0x120, 0x00000007)
    ∷ (0x12c, 0x00007d05)
    ∷ (0x130, 0x00000001)
    ∷ (0x134, 0x00000005)
    ∷ (0x138, 0x00000008)
    ∷ (0x13c, 0x00000004)
    ∷ (0x140, 0x00000006)
    ∷ (0x144, 0x00000006)
    ∷ (0x160, 0x00000007)
    ∷ (0x16c, 0x00007d03)
    ∷ (0x170, 0x00000001)
    ∷ (0x1a0, 0x00000007)
    ∷ (0x1ac, 0x00006103)
    ∷ (0x1b8, 0x00000005)
    ∷ (0x1bc, 0x00000006)
    ∷ (0x1e0, 0x00000007)
    ∷ (0x1ec, 0x00004018)
    ∷ (0x1f0, 0x00000001)
    ∷ (0x1f4, 0x00000001)
    ∷ (0x220, 0x00000007)
    ∷ (0x22c, 0x00007d05)
    ∷ (0x230, 0x00000001)
    ∷ [])

abbrev pub cm2 : StubInit
cm2 = with_presets (make_stub 0x4a008000 0x2000) (
    (0x140, 0x00000007)
    ∷ (0x14c, 0x00001400)
    ∷ (0x150, 0x00000008)
    ∷ (0x154, 0x00000006)
    ∷ (0x158, 0x0000000c)
    ∷ (0x15c, 0x00000009)
    ∷ (0x160, 0x00000004)
    ∷ (0x164, 0x00000005)
    ∷ (0x180, 0x00000007)
    ∷ (0x18c, 0x00003201)
    ∷ (0x190, 0x00000002)
    ∷ [])

abbrev pub prm : StubInit
prm = with_presets (make_stub 0x4a306000 0x2000) (
    (0x110, 0x00000007)
    ∷ (0x400, 0x00000003)
    ∷ (0x300, 0x00000003)
    ∷ (0xb00, 0x00000003)
    ∷ (0x1b08, 0x00000001)
    ∷ [])

-- The control module, the clock and power managers, the wake-up and number generators.
abbrev pub prcm_stubs : List StubInit
prcm_stubs =
    ctrl_core
    ∷ cm1
    ∷ cm2
    ∷ make_stub 0x4a100000 0x1000
    ∷ prm
    ∷ make_stub 0x4a30a000 0x1000
    ∷ make_stub 0x4a30c000 0x1000
    ∷ make_stub 0x4a31e000 0x1000
    ∷ make_stub 0x48281000 0x1000
    ∷ make_stub 0x48090000 0x2000
    ∷ []

abbrev pub iss : StubInit
iss =
    with_selfclear
      (with_presets (make_stub 0x52000000 0x100000)
        ((0x000, 0x00000000) ∷ (0x014, 0x00000001) ∷ []))
      0x010 0x1

abbrev pub ducati_mmu : StubInit
ducati_mmu =
    with_selfclear
      (with_presets (make_stub 0x55080000 0x4000)
        ((0x2000, 0x00000011) ∷ (0x2014, 0x00000001) ∷ []))
      0x2010 0x2

-- The imaging subsystem and the MMU of the Ducati.
abbrev pub imaging_stubs : List StubInit
imaging_stubs = iss ∷ ducati_mmu ∷ []

abbrev pub wdt2 : StubInit
wdt2 = with_presets (make_stub 0x4a314000 0x1000) ((0x14, 1) ∷ [])

-- The SmartReflex sensors and the watchdog.
abbrev pub sensor_stubs : List StubInit
sensor_stubs =
    make_stub 0x4a0d9000 0x1000
    ∷ make_stub 0x4a0db000 0x1000
    ∷ make_stub 0x4a0dd000 0x1000
    ∷ wdt2
    ∷ []

-- The serial interfaces.
abbrev pub mcspi_stubs : List StubInit
mcspi_stubs =
    make_stub 0x48098000 0x1000
    ∷ make_stub 0x4809a000 0x1000
    ∷ make_stub 0x480b8000 0x1000
    ∷ make_stub 0x480ba000 0x1000
    ∷ []

-- The windows of the memory controller.
abbrev pub gpmc_stubs : List StubInit
gpmc_stubs =
    make_stub 0x10000000 0x100000
    ∷ make_stub 0x18000000 0x100000
    ∷ make_stub 0x20000000 0x100000
    ∷ make_stub 0x28000000 0x100000
    ∷ make_stub 0x30000000 0x100000
    ∷ make_stub 0x38000000 0x100000
    ∷ []

abbrev pub gpmc : StubInit
gpmc = with_selfclear (with_presets (make_stub 0x50000000 0x1000) ((0x14, 1) ∷ [])) 0x10 0x2

abbrev pub emif1 : StubInit
emif1 = with_presets (make_stub 0x4c000000 0x1000) ((0x04, 0x4) ∷ [])

abbrev pub emif2 : StubInit
emif2 = with_presets (make_stub 0x4d000000 0x1000) ((0x04, 0x4) ∷ [])

-- The memory controllers.
abbrev pub memory_stubs : List StubInit
memory_stubs = gpmc ∷ emif1 ∷ emif2 ∷ make_stub 0x4e000000 0x1000 ∷ []

abbrev pub sgx : StubInit
sgx = with_presets (make_stub 0x56000000 0x10000) ((0x10, 0x01140000) ∷ (0x14, 0x00010125) ∷ [])

abbrev pub dss : StubInit
dss =
    with_selfclear
      (with_presets (make_stub 0x58000000 0x1000) ((0x00, 0x00000040) ∷ (0x14, 1) ∷ [])) 0x10 0x2

abbrev pub dsi1 : StubInit
dsi1 = with_presets (make_stub 0x58004000 0x1000) ((0x304, 0x1) ∷ (0x54, 0x80000000) ∷ [])

-- The graphics processor and the display subsystem.
abbrev pub display_stubs : List StubInit
display_stubs =
    sgx
    ∷ dss
    ∷ make_stub 0x58002000 0x1000
    ∷ make_stub 0x58003000 0x1000
    ∷ dsi1
    ∷ make_stub 0x58005000 0x1000
    ∷ make_stub 0x58006000 0x1000
    ∷ []

-- The USB controllers.
abbrev pub usb_stubs : List StubInit
usb_stubs =
    make_stub 0x4a062000 0x1000 ∷ make_stub 0x4a064000 0x1000 ∷ make_stub 0x4a0ab000 0x1000 ∷ []

abbrev pub stubs : List StubInit
stubs =
    prcm_stubs ++ imaging_stubs ++ sensor_stubs ++ mcspi_stubs ++ gpmc_stubs ++ memory_stubs
    ++ display_stubs ++ usb_stubs
