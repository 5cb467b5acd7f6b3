-- ===== src/Hsmmc/Response.antt =====
-- The order of a 136-bit response in qemu/hw/arm/garmin_gpsmap.c, `hsmmc_core_read`.
use garmin_gpsmap_emu.Prelude.{ℕ, ◌+◌, ◌*◌, ◌/◌, ◌%◌, ◌^◌, ◌<◌}
use garmin_gpsmap_emu.Prelude.{bit_or, u32, shl, shr}
use garmin_gpsmap_emu.Prelude.{◌≡◌, refl, ◌∙◌, arith}
use garmin_gpsmap_emu.Prelude.{true, not, if◌then◌else◌}
use garmin_gpsmap_emu.Prelude.{List}
use garmin_gpsmap_emu.Prelude.{get_or}
use garmin_gpsmap_emu.Prelude.Fields.{bit_or-disjoint}
use garmin_gpsmap_emu.Hsmmc.{SdhciOps, Hsmmc, reshift, load_response, core_read}

-- Four 32-bit words as one number of 128 bits, the lowest word first.
unfoldable pub word128 : ℕ → ℕ → ℕ → ℕ → ℕ
word128 w0 w1 w2 w3 = w0 + w1 * 2 ^ 32 + w2 * 2 ^ 64 + w3 * 2 ^ 96

unfoldable pub value : List ℕ → ℕ
value ws = word128 (get_or ws 0 0) (get_or ws 1 0) (get_or ws 2 0) (get_or ws 3 0)

-- One word of the response takes the top byte of the word below it.
carry :
    (lo hi : ℕ)
    → lo < 2 ^ 32
    → hi < 2 ^ 32
    → u32 (bit_or (shl hi 8) (shr lo 24)) ≡ hi % 2 ^ 24 * 2 ^ 8 + lo / 2 ^ 24
carry lo hi p q = omega (arith, bit_or-disjoint 8 hi (lo / 2 ^ 24) (omega arith))

first : (lo : ℕ) → lo < 2 ^ 32 → u32 (bit_or (shl lo 8) 0x01) ≡ lo % 2 ^ 24 * 2 ^ 8 + 1
first lo p = omega (arith, bit_or-disjoint 8 lo 1 (omega arith))

-- The SDHCI keeps bits 127:8 of the response at bits 119:0 of its four words; what the OMAP
-- shows is the 128-bit number shifted up by a byte, with the end bit in the low byte.
pub value-reshift :
    (w0 w1 w2 w3 : ℕ)
    → w0 < 2 ^ 32
    → w1 < 2 ^ 32
    → w2 < 2 ^ 32
    → w3 < 2 ^ 32
    → value (reshift w0 w1 w2 w3) ≡ (word128 w0 w1 w2 w3 * 2 ^ 8 + 1) % 2 ^ 128
unfolding value word128 reshift
value-reshift w0 w1 w2 w3 a b c d =
    omega (arith, first w0 a, carry w0 w1 a b, carry w1 w2 b c, carry w2 w3 c d)

module _ {S : Type 0} (ops : SdhciOps S) where
  core_read_response :
      (s : Hsmmc S) (i : ℕ)
      → s.last_r2 ≡ true
      → i < 4
      → core_read ops s (0x10 + 4 * i) 4
        ≡ (let t = if not s.rsp_valid then load_response ops s else s in (get_or t.rsp i 0, t))
  unfolding core_read
  core_read_response s i r h = ground arith

  filled :
      (s : Hsmmc S)
      → s.last_r2 ≡ true
      → ((if not s.rsp_valid then load_response ops s else s).last_r2 ≡ true)
        × ((if not s.rsp_valid then load_response ops s else s).rsp_valid ≡ true)
  unfolding load_response
  filled s r = ground arith

  loaded :
      (t : Hsmmc S) (j : ℕ)
      → t.rsp_valid ≡ true
      → ◌≡◌ {A = ℕ × Hsmmc S}
          (let u = if not t.rsp_valid then load_response ops t else t in (get_or u.rsp j 0, u))
          (get_or t.rsp j 0, t)
  loaded t j v = rw v refl

  core_read_fills :
      (s : Hsmmc S) (i : ℕ)
      → s.last_r2 ≡ true
      → i < 4
      → ((core_read ops s (0x10 + 4 * i) 4).1.last_r2 ≡ true)
        × ((core_read ops s (0x10 + 4 * i) 4).1.rsp_valid ≡ true)
  core_read_fills s i r h = rw (core_read_response s i r h) (filled s r)

  -- After the first read of a response word of an R2 command, the four words stay what that read
  -- captured: every later read of a response word returns it and changes nothing, the SDHCI
  -- included.
  response_stable :
      (s : Hsmmc S) (i j : ℕ)
      → s.last_r2 ≡ true
      → i < 4
      → j < 4
      → core_read ops (core_read ops s (0x10 + 4 * i) 4).1 (0x10 + 4 * j) 4 ≡ (
        get_or (core_read ops s (0x10 + 4 * i) 4).1.rsp j 0,
        (core_read ops s (0x10 + 4 * i) 4).1,
      )
  response_stable s i j r hi hj =
      let f = core_read_fills s i r hi in
      core_read_response (core_read ops s (0x10 + 4 * i) 4).1 j f.0 hj
      ∙ loaded (core_read ops s (0x10 + 4 * i) 4).1 j f.1
