-- ===== src/Sgx.antt =====
-- The SGX540 shim of qemu/hw/arm/garmin_gpsmap.c: the device's MMU, the words that the pretend
-- microkernel reads and writes through it, and its events.
-- Page tables, command buffers and driver structures lie in RAM: a read is a function of the
-- memory `m` and changes nothing. Device addresses are 32-bit words, and their sums wrap.
pub mod Command
pub mod Kick
pub mod Mmu
pub mod Counter
pub mod Drain
pub mod Event
mod Tests
use garmin_gpsmap_emu.Prelude.{ℕ, ◌+◌, ◌-◌, ◌*◌, ◌/◌, ◌^◌}
use garmin_gpsmap_emu.Prelude.{bit_and, bit_or, u32, not32, shr, nonzero, has}
use garmin_gpsmap_emu.Prelude.{Bool, not, ◌&&◌, if◌then◌else◌, ◌==◌, ltb, leb}
use garmin_gpsmap_emu.Prelude.{Option, none, some}
use garmin_gpsmap_emu.Prelude.{update}
use garmin_gpsmap_emu.RegStub.{RegStub}

-- QEMU's address space and the debug access through the page tables of the current CPU, by words
-- of 32 bits; a read that fails gives 0 and a write that fails changes nothing. `current_cpu` tells
-- whether a CPU is running.
pub record GpuOps (M : Type 0) : Type 0 where
  pub phys_read : M → ℕ → ℕ
  pub phys_write : M → ℕ → ℕ → M
  pub virt_read : M → ℕ → ℕ
  pub virt_write : M → ℕ → ℕ → M
  pub current_cpu : Bool

-- The stub's registers, the globals of the shim, and the memory; `irq` is the level last given to
-- `qemu_set_irq`, which is wired, `event_timer` the deadline last given to `timer_mod`.
pub record Sgx (M : Type 0) : Type 0 where
  pub stub : RegStub
  pub irq : Bool
  pub event_timer : Option ℕ
  pub pending_events : ℕ
  pub edm_counter : ℕ
  pub mem : M

abbrev pub event_kick : ℕ
event_kick = 0x0ac0

abbrev pub soft_reset : ℕ
soft_reset = 0x0080

abbrev pub event_host_enable2 : ℕ
event_host_enable2 = 0x0110

abbrev pub event_host_clear2 : ℕ
event_host_clear2 = 0x0114

abbrev pub event_status2 : ℕ
event_status2 = 0x0118

abbrev pub event_status : ℕ
event_status = 0x012c

abbrev pub event_host_enable : ℕ
event_host_enable = 0x0130

abbrev pub event_host_clear : ℕ
event_host_clear = 0x0134

abbrev pub bif_dir_list_base0 : ℕ
bif_dir_list_base0 = 0x0c84

abbrev pub event_sw_event : ℕ
event_sw_event = 0x00004000

abbrev pub event_master : ℕ
event_master = 0x80000000

abbrev pub ukernel_latency_ns : ℕ
ukernel_latency_ns = 200000

abbrev pub ptr_ok : ℕ → Bool
ptr_ok p = leb 0x80000000 p && not (p == 0xffffffff)

-- `(int32_t)(a - b) > 0`.
abbrev pub ahead : ℕ → ℕ → Bool
ahead a b = (let d = u32 (a + 2 ^ 32 - b) in nonzero d && ltb d (2 ^ 31))

-- `x + off` on 32-bit addresses.
abbrev pub at : ℕ → ℕ → ℕ
at x off = u32 (x + off)

module _ {M : Type 0} where
  abbrev pub reg : Sgx M → ℕ → ℕ
  reg s off = s.stub.regs (off / 4)

  abbrev pub set_reg : Sgx M → ℕ → ℕ → Sgx M
  set_reg s off v = record s { stub = record s.stub { regs = update s.stub.regs (off / 4) v } }

  unfoldable pub update_irq : Sgx M → Sgx M
  update_irq s =
      let st1 = bit_and (reg s event_status) (reg s event_host_enable) in
      let st2 = bit_and (reg s event_status2) (reg s event_host_enable2) in
      record s { irq = nonzero (bit_or st1 st2) }

  unfoldable pub event_cb : Sgx M → Sgx M
  event_cb s =
      update_irq
        (record (set_reg s event_status
          (bit_or (reg s event_status) (bit_or s.pending_events event_master))) {
            pending_events = 0;
          })

  unfoldable pub raise_event : Sgx M → ℕ → ℕ → Sgx M
  raise_event s mask now = record s {
    pending_events = bit_or s.pending_events mask;
    event_timer = some (now + ukernel_latency_ns);
  }

module _ {M : Type 0} (ops : GpuOps M) where
  unfoldable pub sgx_ldr : M → ℕ → ℕ
  sgx_ldr m va = if ops.current_cpu then ops.virt_read m va else 0

  unfoldable pub sgx_str : M → ℕ → ℕ → M
  sgx_str m va v = if ops.current_cpu then ops.virt_write m va v else m

  -- `none` is the address -1.
  unfoldable pub sgx_mmu : M → ℕ → ℕ → Option ℕ
  sgx_mmu m pd dva =
      let dir = bit_and pd (not32 0xfff) in
      let pde = ops.phys_read m (u32 (dir + bit_and (shr dva 22) 0x3ff * 4)) in
      let pte =
        ops.phys_read m (u32 (bit_and pde (not32 0xfff) + bit_and (shr dva 12) 0x3ff * 4)) in
      if dir == 0
      then none
      else if not (has pde 1)
      then none
      else if not (has pte 1)
      then none
      else some (bit_or (bit_and pte (not32 0xfff)) (bit_and dva 0xfff))

  -- `sgx_dev_to_phys`, whose body is that of `sgx_mmu` at the directory of the register.
  unfoldable pub sgx_dev_to_phys : Sgx M → ℕ → Option ℕ
  sgx_dev_to_phys s dva = sgx_mmu s.mem (reg s bif_dir_list_base0) dva

  unfoldable pub read_at : M → Option ℕ → ℕ
  read_at m none = 0
  read_at m (some pa) = ops.phys_read m pa

  unfoldable pub write_at : M → Option ℕ → ℕ → M
  write_at m none v = m
  write_at m (some pa) v = ops.phys_write m pa v

  unfoldable pub rd32 : M → ℕ → ℕ → ℕ
  rd32 m pd dva = read_at m (sgx_mmu m pd dva)

  unfoldable pub wr32 : M → ℕ → ℕ → ℕ → M
  wr32 m pd dva v = write_at m (sgx_mmu m pd dva) v

  -- Completion counters only ever move forward.
  unfoldable pub wr32_mono : M → ℕ → ℕ → ℕ → M
  wr32_mono m pd dva v = if nonzero dva && ahead v (rd32 m pd dva) then wr32 m pd dva v else m
