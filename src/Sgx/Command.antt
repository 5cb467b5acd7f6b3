-- ===== src/Sgx/Command.antt =====
-- The commands of the pretend microkernel in qemu/hw/arm/garmin_gpsmap.c: render kicks, transfer
-- kicks, power, cleanup and misc-info. Log lines are left out.
use garmin_gpsmap_emu.Prelude.{ℕ, zero, suc, ◌+◌, ◌-◌, ◌*◌, ◌^◌, min}
use garmin_gpsmap_emu.Prelude.{bit_and, bit_or, u32, not32, nonzero, has}
use garmin_gpsmap_emu.Prelude.{Bool, not, ◌&&◌, ◌||◌, if◌then◌else◌, ◌==◌, ltb, leb}
use garmin_gpsmap_emu.Prelude.{Option, none, some}
use garmin_gpsmap_emu.Sgx.{
  GpuOps, Sgx, at, ptr_ok, reg, bif_dir_list_base0, event_sw_event, raise_event, sgx_ldr, sgx_str,
  sgx_mmu, rd32, wr32, wr32_mono,
}

-- `for (i = first; i < first + n; i++)` over a memory.
unfoldable pub for_each {ℓ} : {S : Type ℓ} → ℕ → ℕ → (ℕ → S → S) → S → S
for_each zero i body m = m
for_each (suc n) i body m = for_each n (i + 1) body (body i m)

abbrev pub ccb_size_mask : ℕ
ccb_size_mask = 0xffff

-- `guard` of the loops over a client's command buffer.
abbrev pub guard : ℕ
guard = 64

module _ {M : Type 0} (ops : GpuOps M) where
  -- The word at `x + off`.
  abbrev pub word : M → ℕ → ℕ → ℕ → ℕ
  word m pd x off = rd32 ops m pd (at x off)

  -- `*count_address = max(*count_address, pending + 1)` in serial order, both words given by address.
  abbrev pub bump : ℕ → ℕ → ℕ → M → M
  bump pd count pending m =
      wr32_mono ops m pd (rd32 ops m pd count) (u32 (rd32 ops m pd pending + 1))

  -- A status value {address, value} at `so`, unless the address is 0.
  abbrev pub status : ℕ → ℕ → M → M
  status pd so m =
      let a = rd32 ops m pd so in if nonzero a then wr32 ops m pd a (word m pd so 4) else m

  -- The client's page directory, or the kernel's where the client names none.
  unfoldable pub client_pd : Sgx M → ℕ → ℕ
  client_pd s ctx_pd =
      if nonzero ctx_pd then ctx_pd else bit_and (reg s bif_dir_list_base0) (not32 0xfff)

  -- TA finished: source syncs, the TA sync and the TA status values.
  unfoldable pub ta_finished : ℕ → ℕ → M → M
  ta_finished pd sh m =
      let a =
        for_each (min (word m pd sh 0x2c) 8) 0
          (λ i. bump pd (at sh (0x30 + 16 * i + 4)) (at sh (0x30 + 16 * i))) m in
      let b = bump pd (at sh 0x18) (at sh 0x14) a in
      for_each (min (word b pd sh 0x4) 32) 0 (λ i. status pd (at sh (0xc0 + 8 * i))) b

  -- The render target that a command has in use is given back.
  unfoldable pub release_target : ℕ → ℕ → M → M
  release_target pd access m =
      let a = wr32 ops m pd access 0 in
      let below = u32 (access + 2 ^ 32 - 8) in
      if access == 0 then m else if rd32 ops a pd below == 1 then wr32 ops a pd below 0 else a

  -- The list of destination syncs at `a`.
  unfoldable pub dst_syncs : ℕ → ℕ → M → M
  dst_syncs pd a m =
      let access = rd32 ops m pd a in
      let b =
        for_each (min (word m pd a 4) 16) 0
          (λ i. bump pd (at a (8 + 16 * i + 0xc)) (at a (8 + 16 * i + 8))) m in
      release_target pd access b

  -- 3D finished: the 3D sync, the second one, the destination syncs and the 3D status values.
  unfoldable pub render_finished : ℕ → ℕ → ℕ → M → M
  render_finished pd cmd cflags m =
      let sh = at cmd 0x50 in
      let a = bump pd (at sh 0x28) (at sh 0x24) m in
      let b = if has cflags 0x200 then bump pd (at sh 0xbc) (at sh 0xb8) a else a in
      let list = word b pd cmd 0x3c in
      let c = if nonzero list then dst_syncs pd list b else b in
      for_each (min (word c pd sh 0x8) 4) 0 (λ i. status pd (at sh (0x1c0 + 8 * i))) c

  -- May the loop take another command? The ring holds one, and it is ready and of a sane size.
  unfoldable pub ta_ready : ℕ → ℕ → ℕ → M → Bool
  ta_ready pd base ctl m =
      let rd = word m pd ctl 4 in
      let cmd = at base rd in
      let size = rd32 ops m pd cmd in
      not (rd == rd32 ops m pd ctl)
      && has (word m pd cmd 0x50) 1
      && not (size == 0)
      && leb size 0x10000

  unfoldable pub ta_command : ℕ → ℕ → ℕ → M → M
  ta_command pd base ctl m =
      let rd = word m pd ctl 4 in
      let cmd = at base rd in
      let size = rd32 ops m pd cmd in
      let cflags = word m pd cmd 4 in
      let a = ta_finished pd (at cmd 0x50) m in
      let b = if has cflags 0x2 then render_finished pd cmd cflags a else a in
      wr32 ops b pd (at ctl 4) (bit_and (u32 (rd + size)) ccb_size_mask)

  -- `while (guard-- > 0)`.
  unfoldable pub ta_rounds : ℕ → ℕ → ℕ → ℕ → M → M
  ta_rounds zero pd base ctl m = m
  ta_rounds (suc n) pd base ctl m =
      let rest = ta_rounds n pd base ctl (ta_command pd base ctl m) in
      if ta_ready pd base ctl m then rest else m

  unfoldable pub cmd_ta : Sgx M → ℕ → Sgx M
  cmd_ta s hwrc =
      let kpd = reg s bif_dir_list_base0 in
      let flags = rd32 ops s.mem kpd hwrc in
      let pd = client_pd s (word s.mem kpd hwrc 0x08) in
      let base = word s.mem kpd hwrc 0x0c in
      let ctl = word s.mem kpd hwrc 0x10 in
      let m = ta_rounds guard pd base ctl s.mem in
      record s { mem = if has flags 1 then wr32 ops m kpd hwrc (bit_and flags (not32 1)) else m }

  unfoldable pub transfer_size : ℕ → ℕ
  transfer_size size =
      if size == 0 || ltb 0x10000 size || nonzero (bit_and size 63) then 0x180 else size

  unfoldable pub transfer_command : ℕ → ℕ → ℕ → M → M
  transfer_command pd base ctl m =
      let rd = word m pd ctl 4 in
      let cmd = at base rd in
      let size = transfer_size (word m pd cmd 0x70) in
      let sh = at cmd 0x78 in
      let a =
        for_each (min (rd32 ops m pd sh) 8) 0
          (λ i. bump pd (at sh (0x4 + 16 * i + 4)) (at sh (0x4 + 16 * i))) m in
      let b =
        for_each (min (word a pd sh 0x84) 1) 0
          (λ i. bump pd (at sh (0x88 + 16 * i + 0xc)) (at sh (0x88 + 16 * i + 8))) a in
      let c = bump pd (at sh 0x9c) (at sh 0x98) b in
      let d = bump pd (at sh 0xac) (at sh 0xa8) c in
      let e = for_each (min (word d pd sh 0xb8) 4) 0 (λ i. status pd (at sh (0xbc + 8 * i))) d in
      wr32 ops e pd (at ctl 4) (bit_and (u32 (rd + size)) ccb_size_mask)

  unfoldable pub transfer_rounds : ℕ → ℕ → ℕ → ℕ → M → M
  transfer_rounds zero pd base ctl m = m
  transfer_rounds (suc n) pd base ctl m =
      let rest = transfer_rounds n pd base ctl (transfer_command pd base ctl m) in
      if word m pd ctl 4 == rd32 ops m pd ctl then m else rest

  unfoldable pub cmd_transfer : Sgx M → ℕ → Sgx M
  cmd_transfer s hwtc =
      let kpd = reg s bif_dir_list_base0 in
      let pd = client_pd s (word s.mem kpd hwtc 0x08) in
      let base = word s.mem kpd hwtc 0x0c in
      let ctl = word s.mem kpd hwtc 0x10 in
      record s { mem = transfer_rounds guard pd base ctl s.mem }

  -- The answer to GETMISCINFO at the physical address `pa`.
  unfoldable pub misc_block : ℕ → ℕ → M → M
  misc_block devinfo pa m =
      let a = ops.phys_write m (pa + 0x0c) 0x00010711 in
      let b = ops.phys_write a (pa + 0x10) 0x000d3e39 in
      let c = ops.phys_write b (pa + 0x18) (ops.phys_read b (pa + 0x04)) in
      let d = ops.phys_write c (pa + 0x1c) (sgx_ldr ops c (at devinfo 0x98)) in
      let e =
        for_each 13 0
          (λ i m. ops.phys_write m (pa + 0x20 + 4 * i) (sgx_ldr ops m (at devinfo (0x9c + 4 * i))))
          d in
      ops.phys_write e pa (bit_or (ops.phys_read e pa) 1)

  unfoldable pub misc_at : ℕ → Option ℕ → M → M
  misc_at devinfo none m = m
  misc_at devinfo (some pa) m = misc_block devinfo pa m

  unfoldable pub cmd_miscinfo : Sgx M → ℕ → ℕ → Sgx M
  cmd_miscinfo s devinfo block_dva = record s {
    mem = misc_at devinfo (sgx_mmu ops s.mem (reg s bif_dir_list_base0) block_dva) s.mem;
  }

  -- The type of a command: the place of its service address among the 11 of `devinfo`, from `i` on.
  unfoldable pub type_from : ℕ → ℕ → M → ℕ → ℕ → Option ℕ
  type_from zero i m devinfo svc = none
  type_from (suc n) i m devinfo svc =
      let rest = type_from n (i + 1) m devinfo svc in
      if svc == sgx_ldr ops m (at devinfo (0x58 + 4 * i)) && nonzero svc then some i else rest

  unfoldable pub set_flag : Sgx M → ℕ → ℕ → Sgx M
  set_flag s va flag = record s { mem = sgx_str ops s.mem va (bit_or (sgx_ldr ops s.mem va) flag) }

  unfoldable pub run_command : Sgx M → ℕ → ℕ → ℕ → Sgx M
  run_command s devinfo type arg =
      let hostctl = sgx_ldr ops s.mem (at devinfo 0x7d8) in
      if type == 0
      then cmd_ta s arg
      else if type == 1
      then cmd_transfer s arg
      else if type == 3
      then (if not (ptr_ok hostctl)
          then s
          else if arg == 1
          then set_flag s (at hostctl 4) 0x8
          else if arg == 2
          then set_flag s (at hostctl 4) 0x4
          else s)
      else if type == 5
      then (if ptr_ok hostctl then set_flag s (at hostctl 8) 1 else s)
      else if type == 6
      then cmd_miscinfo s devinfo arg
      else s

  unfoldable pub run_typed : Sgx M → ℕ → Option ℕ → ℕ → Sgx M
  run_typed s devinfo none arg = s
  run_typed s devinfo (some type) arg = run_command s devinfo type arg

  -- `svc` and `arg` are the words 0 and 3 of the command.
  unfoldable pub process_command : Sgx M → ℕ → ℕ → ℕ → ℕ → Sgx M
  process_command s devinfo svc arg now =
      raise_event (run_typed s devinfo (type_from 11 0 s.mem devinfo svc) arg) event_sw_event now
