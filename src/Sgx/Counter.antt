-- ===== src/Sgx/Counter.antt =====
-- The completion counters of the SGX shim, `wr32_mono` of qemu/hw/arm/garmin_gpsmap.c.
use garmin_gpsmap_emu.Prelude.{ℕ, ◌+◌, ◌-◌, ◌^◌, ◌<◌}
use garmin_gpsmap_emu.Prelude.{u32}
use garmin_gpsmap_emu.Prelude.{◌≡◌, refl, ap, ◌∙◌, ◌≢◌, ◌⊎◌, inl, inr, arith}
use garmin_gpsmap_emu.Prelude.{true, false}
use garmin_gpsmap_emu.Prelude.{some, Bool-cases}
use garmin_gpsmap_emu.Sgx.{GpuOps, ahead, sgx_mmu, read_at, write_at, rd32, wr32, wr32_mono}

-- Physical memory as RAM: a word that is written is read back.
abbrev pub IsRam : {M : Type 0} → GpuOps M → Type 0
IsRam {M} ops = (m : M) (a v : ℕ) → v < 2 ^ 32 → ops.phys_read (ops.phys_write m a v) a ≡ v

module _ {M : Type 0} (ops : GpuOps M) where
  rd32_lem :
      (m : M) (pd dva pa : ℕ)
      → sgx_mmu ops m pd dva ≡ some pa
      → rd32 ops m pd dva ≡ ops.phys_read m pa
  unfolding rd32 read_at
  rd32_lem m pd dva pa e = ap (read_at ops m) e

  mono_moves :
      (m : M) (pd dva v pa : ℕ)
      → dva ≢ 0
      → sgx_mmu ops m pd dva ≡ some pa
      → ahead v (ops.phys_read m pa) ≡ true
      → wr32_mono ops m pd dva v ≡ ops.phys_write m pa v
  unfolding wr32_mono wr32 write_at
  mono_moves m pd dva v pa h e t = rw (rd32_lem m pd dva pa e, e, t) (ground arith)

  mono_stays :
      (m : M) (pd dva v pa : ℕ)
      → sgx_mmu ops m pd dva ≡ some pa
      → ahead v (ops.phys_read m pa) ≡ false
      → wr32_mono ops m pd dva v ≡ m
  unfolding wr32_mono
  mono_stays m pd dva v pa e t = rw (rd32_lem m pd dva pa e, t) (ground arith)

  not_ahead : (v : ℕ) → v < 2 ^ 32 → ahead v v ≡ false
  not_ahead v h = ground arith

  -- A counter is mapped at `pa`, and is not part of the page tables that map it. Then
  -- `wr32_mono` leaves it at its value or at the new one, it has not moved back in the serial
  -- order of 32-bit words, and afterwards the new value is not ahead of it.
  pub wr32_mono_forward :
      (m : M) (pd dva v pa : ℕ)
      → IsRam ops
      → dva ≢ 0
      → v < 2 ^ 32
      → ops.phys_read m pa < 2 ^ 32
      → sgx_mmu ops m pd dva ≡ some pa
      → sgx_mmu ops (ops.phys_write m pa v) pd dva ≡ some pa
      → ((rd32 ops (wr32_mono ops m pd dva v) pd dva ≡ rd32 ops m pd dva)
          ⊎ (rd32 ops (wr32_mono ops m pd dva v) pd dva ≡ v))
        × (u32 (rd32 ops (wr32_mono ops m pd dva v) pd dva + 2 ^ 32 - rd32 ops m pd dva) < 2 ^ 31)
        × (ahead v (rd32 ops (wr32_mono ops m pd dva v) pd dva) ≡ false)
  wr32_mono_forward m pd dva v pa ram h fits old mapped still =
      let before = rd32_lem m pd dva pa mapped in
      elim (Bool-cases (ahead v (ops.phys_read m pa))) [
        | inl t ↦
            let after = rd32_lem (ops.phys_write m pa v) pd dva pa still ∙ ram m pa v fits in
            rw (mono_moves m pd dva v pa h mapped t, after, before)
              (inr refl, ground arith, not_ahead v fits)
        | inr t ↦ rw (mono_stays m pd dva v pa mapped t, before) (inl refl, omega arith, t)
      ]
