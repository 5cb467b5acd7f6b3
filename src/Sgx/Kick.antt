-- ===== src/Sgx/Kick.antt =====
-- The register hooks of the SGX stub in qemu/hw/arm/garmin_gpsmap.c: the kicks, the kernel's command
-- buffer and the event registers.
use garmin_gpsmap_emu.Prelude.{ℕ, zero, suc, ◌+◌, ◌*◌}
use garmin_gpsmap_emu.Prelude.{bit_and, bit_or, u32, not32, has}
use garmin_gpsmap_emu.Prelude.{Bool, not, ◌&&◌, ◌||◌, if◌then◌else◌, ◌==◌}
use garmin_gpsmap_emu.Prelude.{Option, none, some}
use garmin_gpsmap_emu.RegStub.{RegStub}
use garmin_gpsmap_emu.RegStub
use garmin_gpsmap_emu.Sgx.{
  GpuOps, Sgx, at, ptr_ok, reg, set_reg, update_irq, sgx_ldr, sgx_str, event_kick, soft_reset,
  event_status, event_status2, event_host_clear, event_host_clear2, event_host_enable,
  event_host_enable2,
}
use garmin_gpsmap_emu.Sgx.Command.{for_each, process_command}

abbrev pub devnode_ptr : ℕ
devnode_ptr = 0xa226a480

abbrev pub devinfo_off : ℕ
devinfo_off = 0xac

abbrev pub hostctl_off : ℕ
hostctl_off = 0x7d8

module _ {M : Type 0} where
  -- The value that a register reads as; two of them are a counter that moves at every read.
  unfoldable pub read_fixup : Sgx M → ℕ → ℕ → ℕ × Sgx M
  read_fixup s addr val =
      if addr == 0x0b10 || addr == 0x0b1c
      then (let n = u32 (s.edm_counter + 1) in (n, record s { edm_counter = n }))
      else if addr == 0x0008
      then (0, s)
      else (val, s)

  -- The registers that the hook answers at once, and `none` for the others.
  unfoldable pub event_hook : Sgx M → ℕ → ℕ → Option (Sgx M)
  event_hook s addr val =
      if addr == soft_reset
      then some
          (update_irq (set_reg (set_reg (set_reg s event_kick 0) event_status 0) event_status2 0))
      else if addr == event_host_clear
      then some (
          update_irq (
            set_reg (set_reg s event_status (bit_and (reg s event_status) (not32 (u32 val))))
              event_host_clear 0))
      else if addr == event_host_clear2
      then some (
          update_irq (
            set_reg (set_reg s event_status2 (bit_and (reg s event_status2) (not32 (u32 val))))
              event_host_clear2 0))
      else if addr == event_host_enable || addr == event_host_enable2
      then some (update_irq s)
      else none

module _ {M : Type 0} (ops : GpuOps M) where
  -- One entry of the kernel's command buffer, at offset `roff`.
  unfoldable pub entry_done : ℕ → ℕ → Sgx M → ℕ → ℕ → Sgx M
  entry_done devinfo base s roff now =
      let e = at base (roff * 32) in
      process_command ops s devinfo (sgx_ldr ops s.mem e) (sgx_ldr ops s.mem (at e 12)) now

  -- `while (roff != woff)`, with `n` rounds at most; 256 are enough for offsets of 8 bits.
  unfoldable pub ccb_rounds : ℕ → ℕ → ℕ → ℕ → ℕ → Sgx M → ℕ → ℕ × Sgx M
  ccb_rounds zero devinfo base now woff s roff = (roff, s)
  ccb_rounds (suc n) devinfo base now woff s roff =
      let rest =
        ccb_rounds n devinfo base now woff (entry_done devinfo base s roff now)
          (bit_and (roff + 1) 0xff) in
      if roff == woff then (roff, s) else rest

  unfoldable pub consume_ccb : Sgx M → ℕ → ℕ → Sgx M
  consume_ccb s devinfo now =
      let ccbinfo = sgx_ldr ops s.mem (at devinfo 0x40) in
      let base = sgx_ldr ops s.mem (at ccbinfo 0x8) in
      let woff_p = sgx_ldr ops s.mem (at ccbinfo 0xc) in
      let roff_p = sgx_ldr ops s.mem (at ccbinfo 0x10) in
      let woff = bit_and (sgx_ldr ops s.mem woff_p) 0xff in
      let roff = bit_and (sgx_ldr ops s.mem roff_p) 0xff in
      let (last, t) = ccb_rounds 256 devinfo base now woff s roff in
      if not (ptr_ok ccbinfo)
      then s
      else if not (ptr_ok base) || not (ptr_ok woff_p) || not (ptr_ok roff_p)
      then s
      else record t { mem = sgx_str ops t.mem roff_p last }

  -- The misc-info block `ms` filled in, if the driver waits for it.
  unfoldable pub answer_misc : ℕ → ℕ → M → M
  answer_misc devinfo ms m =
      let a = sgx_str ops m (at ms 0x0c) 0x00010711 in
      let b = sgx_str ops a (at ms 0x10) 0x000d3e39 in
      let c = sgx_str ops b (at ms 0x18) (sgx_ldr ops b (at ms 0x04)) in
      let d = sgx_str ops c (at ms 0x1c) (sgx_ldr ops c (at devinfo 0x98)) in
      let e =
        for_each 13 0
          (λ i m. sgx_str ops m (at ms (0x20 + 4 * i)) (sgx_ldr ops m (at devinfo (0x9c + 4 * i))))
          d in
      if ptr_ok ms && not (has (sgx_ldr ops m ms) 1)
      then sgx_str ops e ms (bit_or (sgx_ldr ops e ms) 1)
      else m

  -- A kick with bit 0 set, behind the clearing of its register.
  unfoldable pub kick : Sgx M → ℕ → Sgx M
  kick s now =
      let node = sgx_ldr ops s.mem devnode_ptr in
      let devinfo = if ptr_ok node then sgx_ldr ops s.mem (at node devinfo_off) else 0 in
      let hostctl = if ptr_ok devinfo then sgx_ldr ops s.mem (at devinfo hostctl_off) else 0 in
      let misc_list = sgx_ldr ops s.mem (at devinfo 0x54) in
      let ms = if ptr_ok misc_list then sgx_ldr ops s.mem misc_list else 0 in
      let t = consume_ccb s devinfo now in
      if not (ptr_ok hostctl)
      then s
      else if not (has (sgx_ldr ops s.mem hostctl) 1)
      then record s { mem = sgx_str ops s.mem hostctl (bit_or (sgx_ldr ops s.mem hostctl) 1) }
      else record t { mem = answer_misc devinfo ms t.mem }

  unfoldable pub kick_hook : Sgx M → ℕ → ℕ → ℕ → Option (Sgx M) → Sgx M
  kick_hook s addr val now (some t) = t
  kick_hook s addr val now none =
      if (not (addr == event_kick) && not (addr == event_kick + 8)) || not (has val 1)
      then s
      else kick (set_reg s addr 0) now

  -- `shim` is the machine's option `gpsmap_sgx_shim`.
  unfoldable pub write_hook : Bool → Sgx M → ℕ → ℕ → ℕ → Sgx M
  write_hook shim s addr val now =
      if not shim then s else kick_hook s addr val now (event_hook s addr val)

  -- A guest write of a register: the stub stores it, then the hook runs.
  unfoldable pub write : Bool → Sgx M → ℕ → ℕ → ℕ → ℕ → Sgx M
  write shim s addr val size now =
      write_hook shim (record s { stub = RegStub.write s.stub addr val size }) addr val now
