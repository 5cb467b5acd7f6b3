-- ===== src/Sgx/Mmu.antt =====
-- The page walk of the SGX MMU, `sgx_mmu` of qemu/hw/arm/garmin_gpsmap.c.
use garmin_gpsmap_emu.Prelude.{ℕ, ◌+◌, ◌*◌, ◌/◌, ◌%◌, ◌^◌, ◌<◌}
use garmin_gpsmap_emu.Prelude.{bit_and, bit_or, u32, not32, shr, has}
use garmin_gpsmap_emu.Prelude.{◌≡◌, arith}
use garmin_gpsmap_emu.Prelude.{not, if◌then◌else◌, ◌==◌}
use garmin_gpsmap_emu.Prelude.{Option, none, some}
use garmin_gpsmap_emu.Prelude.Bits.{bit_and_mask}
use garmin_gpsmap_emu.Prelude.Fields.{bit_or-disjoint, bit_and_page}
use garmin_gpsmap_emu.Sgx.{GpuOps, sgx_mmu}

module _ {M : Type 0} (ops : GpuOps M) where
  -- The entry `i` of the table of 1024 words in the frame of `entry`.
  abbrev pub table_entry : M → ℕ → ℕ → ℕ
  table_entry m entry i = ops.phys_read m (entry / 4096 * 4096 + i * 4)

  -- Two levels of tables: an odd entry is valid and names a frame of 4 KiB.
  abbrev pub translate : M → ℕ → ℕ → ℕ → ℕ → Option ℕ
  translate m pd i j offset =
      let pde = table_entry m pd i in
      let pte = table_entry m pde j in
      if pd / 4096 == 0
      then none
      else if pde % 2 == 0
      then none
      else if pte % 2 == 0
      then none
      else some (pte / 4096 * 4096 + offset)

  -- The walk behind the directory entry `pde`.
  walk :
      (m : M) (pd pde j offset : ℕ)
      → j < 1024
      → offset < 4096
      → pde < 2 ^ 32
      → ((a : ℕ) → ops.phys_read m a < 2 ^ 32)
      → (let pte = ops.phys_read m (u32 (bit_and pde (not32 0xfff) + j * 4)) in
          if pd / 4096 * 4096 == 0
          then none
          else if not (has pde 1)
          then none
          else if not (has pte 1)
          then none
          else some (bit_or (bit_and pte (not32 0xfff)) offset))
        ≡ (let pte = table_entry m pde j in
            if pd / 4096 == 0
            then none
            else if pde % 2 == 0
            then none
            else if pte % 2 == 0
            then none
            else some (pte / 4096 * 4096 + offset))
  walk m pd pde j offset b c p words =
      let dir : bit_and pde (not32 0xfff) ≡ pde / 4096 * 4096 = bit_and_page pde p in
      let fits : u32 (pde / 4096 * 4096 + j * 4) ≡ pde / 4096 * 4096 + j * 4 = omega arith in
      let pte = table_entry m pde j in
      rw (dir, fits)
        (ground (
          arith,
          bit_and_mask 1 pde,
          bit_and_mask 1 pte,
          bit_and_page pte (words _),
          bit_or-disjoint 12 (pte / 4096) offset c,
        ))

  -- The walk of a device address is the look-up in two levels of tables of 1024 entries: bits
  -- 31:22 are the index into the directory, bits 21:12 the index into the page table, bits 11:0 the
  -- offset in the frame; a null directory and even entries give no address. The memory holds 32-bit
  -- words.
  pub sgx_mmu_translates :
      (m : M) (pd i j offset : ℕ)
      → ((a : ℕ) → ops.phys_read m a < 2 ^ 32)
      → pd < 2 ^ 32
      → i < 1024
      → j < 1024
      → offset < 4096
      → sgx_mmu ops m pd ((i * 1024 + j) * 4096 + offset) ≡ translate m pd i j offset
  unfolding sgx_mmu
  sgx_mmu_translates m pd i j offset words p a b c =
      let va : ℕ = (i * 1024 + j) * 4096 + offset in
      let dir : bit_and pd (not32 0xfff) ≡ pd / 4096 * 4096 = bit_and_page pd p in
      let hi : bit_and (shr va 22) 0x3ff ≡ i = omega (arith, bit_and_mask 10 (va / 2 ^ 22)) in
      let mid : bit_and (shr va 12) 0x3ff ≡ j = omega (arith, bit_and_mask 10 (va / 2 ^ 12)) in
      let low : bit_and va 0xfff ≡ offset = omega (arith, bit_and_mask 12 va) in
      let fits : u32 (pd / 4096 * 4096 + i * 4) ≡ pd / 4096 * 4096 + i * 4 = omega arith in
      rw (dir, hi, mid, low, fits)
        (walk m pd (table_entry m pd i) j offset b c (words _) (λ x. words x))
