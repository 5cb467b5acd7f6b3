-- ===== src/Sgx/Drain.antt =====
-- The kernel's command buffer of the SGX shim in qemu/hw/arm/garmin_gpsmap.c, `sgx_consume_ccb`.
use garmin_gpsmap_emu.Prelude.{ℕ, zero, suc, ◌+◌, ◌-◌, ◌%◌, ◌≤◌, ◌<◌}
use garmin_gpsmap_emu.Prelude.{◌≡◌, refl, ◌∙◌, ◌≢◌, arith}
use garmin_gpsmap_emu.Prelude.Bits.{bit_and_mask}
use garmin_gpsmap_emu.Sgx.{GpuOps, Sgx}
use garmin_gpsmap_emu.Sgx.Kick.{entry_done, ccb_rounds}

-- How many entries wait between the two offsets of a ring of 256.
abbrev pub waiting : ℕ → ℕ → ℕ
waiting woff roff = (woff + 256 - roff) % 256

module _ {M : Type 0} (ops : GpuOps M) (devinfo base now : ℕ) where
  -- `n` entries, one after another, from `roff` on.
  unfoldable pub serve : ℕ → Sgx M → ℕ → Sgx M
  serve zero s roff = s
  serve (suc n) s roff = serve n (entry_done ops devinfo base s roff now) ((roff + 1) % 256)

  rounds_stop : (n woff : ℕ) (s : Sgx M) → ccb_rounds ops n devinfo base now woff s woff ≡ (woff, s)
  unfolding ccb_rounds
  rounds_stop zero woff s = refl
  rounds_stop (suc n) woff s = ground arith

  rounds_go :
      (n woff : ℕ) (s : Sgx M) (roff : ℕ)
      → roff ≢ woff
      → ccb_rounds ops (suc n) devinfo base now woff s roff
        ≡ ccb_rounds ops n devinfo base now woff
            (entry_done ops devinfo base s roff now)
            ((roff + 1) % 256)
  unfolding ccb_rounds
  rounds_go n woff s roff h = ground (arith, bit_and_mask 8 (roff + 1))

  drains :
      (k n woff : ℕ) (s : Sgx M) (roff : ℕ)
      → woff < 256
      → roff < 256
      → waiting woff roff ≡ k
      → k ≤ n
      → ccb_rounds ops n devinfo base now woff s roff ≡ (woff, serve k s roff)
  unfolding serve
  drains zero n woff s roff a b e h =
      let same : roff ≡ woff = omega arith in rw same (rounds_stop n woff s)
  drains (suc k) zero woff s roff a b e h = absurd (omega arith)
  drains (suc k) (suc n) woff s roff a b e h =
      rounds_go n woff s roff (omega arith)
      ∙ drains k n woff (entry_done ops devinfo base s roff now) ((roff + 1) % 256) a (omega arith)
          (omega arith) (omega arith)

  -- The loop over the kernel's command buffer ends, within 256 rounds and with the read offset at
  -- the write offset, from any two offsets of the ring, and what it has done is to process each
  -- waiting entry once, in the order of the ring, around its end where need be.
  pub ccb_drains :
      (woff : ℕ) (s : Sgx M) (roff : ℕ)
      → woff < 256
      → roff < 256
      → ccb_rounds ops 256 devinfo base now woff s roff ≡ (woff, serve (waiting woff roff) s roff)
  ccb_drains woff s roff a b = drains (waiting woff roff) 256 woff s roff a b refl (omega arith)
