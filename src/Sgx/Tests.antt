-- ===== src/Sgx/Tests.antt =====
-- The SGX shim at concrete inputs: a memory of words, one directory entry and one page.
use garmin_gpsmap_emu.Prelude.{ℕ, ◌+◌, ◌-◌, ◌*◌, ◌^◌, ◌<◌}
use garmin_gpsmap_emu.Prelude.{u32}
use garmin_gpsmap_emu.Prelude.{◌≡◌, refl, ◌⊎◌, arith}
use garmin_gpsmap_emu.Prelude.{true, false, if◌then◌else◌, ◌==◌}
use garmin_gpsmap_emu.Prelude.{none}
use garmin_gpsmap_emu.Prelude.{update}
use garmin_gpsmap_emu.Sgx.{Sgx, GpuOps, ahead, sgx_mmu, rd32, wr32_mono}
use garmin_gpsmap_emu.Sgx.Kick.{ccb_rounds}
use garmin_gpsmap_emu.Sgx.Drain.{serve, waiting, ccb_drains}
use garmin_gpsmap_emu.Sgx.Mmu.{translate, sgx_mmu_translates}
use garmin_gpsmap_emu.Sgx.Counter.{IsRam, wr32_mono_forward}

abbrev ram : GpuOps (ℕ → ℕ)
ram = record {
  phys_read = λ m a. u32 (m a);
  phys_write = λ m a v. update m a v;
  virt_read = λ m a. u32 (m a);
  virt_write = λ m a v. update m a v;
  current_cpu = true;
}

abbrev tables : ℕ → ℕ
tables a =
    if a == 0x1004 then 0x2001 else if a == 0x2008 then 0x3001 else if a == 0x3010 then 5 else 0

-- The device node at 0x80000100, its devinfo at 0x80001000, the host-control block at 0x80002000.
abbrev structures : ℕ → ℕ
structures a =
    if a == 0xa226a480
    then 0x80000100
    else if a == 0x800001ac
    then 0x80001000
    else if a == 0x800017d8
    then 0x80002000
    else if a == 0x80002000
    then 0x10
    else 0

abbrev idle : Sgx (ℕ → ℕ)
idle = record {
  stub = record {
    rdclear = 0;
    regs = λ i. if i == 0x4c then 0x4000 else 0;
    selfclear_off = 0;
    selfclear_mask = 0;
  };
  irq = false;
  event_timer = none;
  pending_events = 0;
  edm_counter = 0;
  mem = structures;
}

ram-IsRam : IsRam ram
ram-IsRam m a v h = ground arith

ccb_drains_example :
    ccb_rounds ram 256 0x80001000 0x80003000 0 2 idle 254
    ≡ (2, serve ram 0x80001000 0x80003000 0 (waiting 2 254) idle 254)
ccb_drains_example = ccb_drains ram 0x80001000 0x80003000 0 2 idle 254 (omega arith) (omega arith)

sgx_mmu_translates_example :
    sgx_mmu ram tables 0x1000 ((1 * 1024 + 2) * 4096 + 0x10) ≡ translate ram tables 0x1000 1 2 0x10
sgx_mmu_translates_example =
    sgx_mmu_translates ram tables 0x1000 1 2 0x10 (λ a. omega arith) (omega arith) (omega arith)
      (omega arith) (omega arith)

wr32_mono_forward_example :
    ((rd32 ram (wr32_mono ram tables 0x1000 0x402010 6) 0x1000 0x402010
        ≡ rd32 ram tables 0x1000 0x402010)
      ⊎ (rd32 ram (wr32_mono ram tables 0x1000 0x402010 6) 0x1000 0x402010 ≡ 6))
    × (u32 (
          rd32 ram (wr32_mono ram tables 0x1000 0x402010 6) 0x1000 0x402010
          + 2 ^ 32
          - rd32 ram tables 0x1000 0x402010)
        < 2 ^ 31)
    × (ahead 6 (rd32 ram (wr32_mono ram tables 0x1000 0x402010 6) 0x1000 0x402010) ≡ false)
unfolding sgx_mmu
wr32_mono_forward_example =
    wr32_mono_forward ram tables 0x1000 0x402010 6 0x3010 ram-IsRam (omega arith) (omega arith)
      (omega arith) refl refl
