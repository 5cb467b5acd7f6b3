-- ===== src/RegStub/Tests.antt =====
-- The register stubs at concrete inputs.
use garmin_gpsmap_emu.Prelude.{◌≡◌, refl}
use garmin_gpsmap_emu.RegStub.{RegStub, read, write, stub_set, stub_selfclear}

abbrev zeroed : RegStub
zeroed = record { rdclear = 0; regs = λ i. 0; selfclear_off = 0; selfclear_mask = 0 }

-- A byte written into a word is read back alone and with its word.
byte_read : read (λ s addr v. v) (write (stub_set zeroed 0x10 0x11223344) 0x12 0xab 1) 0x12 1 ≡ 0xab
unfolding read write stub_set
byte_read = refl

byte_in_word :
    read (λ s addr v. v) (write (stub_set zeroed 0x10 0x11223344) 0x12 0xab 1) 0x10 4 ≡ 0x11ab3344
unfolding read write stub_set
byte_in_word = refl

-- The bits that clear themselves read as 0.
bits_cleared : read (λ s addr v. v) (write (stub_selfclear zeroed 0x10 0x2) 0x10 0x7 4) 0x10 4 ≡ 0x5
unfolding read write stub_selfclear
bits_cleared = refl
