-- ===== src/Sdma.antt =====
-- The system DMA of qemu/hw/arm/garmin_gpsmap.c (`struct Omap4Sdma`): the channels, the element
-- copy and the engine timer.
-- `irq i` is the level last given to `qemu_set_irq` for line `i`, `engine` the deadline last given
-- to `timer_mod`. An element of eight bytes, which the code reads into a variable of four, is
-- outside what the C code defines; here it is a copy of eight bytes.
pub mod Regs
pub mod Copy
pub mod Transfer
pub mod Progress
mod Tests
use garmin_gpsmap_emu.Prelude.{ℕ, zero, suc, ◌+◌, ◌-◌, ◌*◌, ◌^◌, min}
use garmin_gpsmap_emu.Prelude.{bit_and, bit_or, u32, u64, not32, shl, shr, nonzero, has}
use garmin_gpsmap_emu.Prelude.{Bool, true, false, not, ◌&&◌, ◌||◌, if◌then◌else◌, ◌==◌, ltb}
use garmin_gpsmap_emu.Prelude.{Option, none, some}
use garmin_gpsmap_emu.Prelude.{update}

-- The system's address space: a read and a write of `size` bytes at an address, in order
-- `state, address, size` and for a write the value.
pub record MemOps (M : Type 0) : Type 0 where
  pub read : M → ℕ → ℕ → ℕ × M
  pub write : M → ℕ → ℕ → ℕ → M

abbrev pub nch : ℕ
nch = 32

abbrev pub ccr_enable : ℕ
ccr_enable = 2 ^ 7

-- CSR_FRAME, CSR_BLOCK and CSR_LAST, and with CSR_HALF.
abbrev pub csr_done : ℕ
csr_done = 0x38

abbrev pub csr_started : ℕ
csr_started = 0x3c

abbrev pub src_amode : ℕ → ℕ
src_amode c = bit_and (shr c 12) 3

abbrev pub dst_amode : ℕ → ℕ
dst_amode c = bit_and (shr c 14) 3

abbrev pub sync : ℕ → ℕ
sync c = bit_or (shl (bit_and (shr c 19) 3) 5) (bit_and c 0x1f)

pub record Chan : Type 0 where
  pub ccr : ℕ
  pub clnk : ℕ
  pub cicr : ℕ
  pub csr : ℕ
  pub csdp : ℕ
  pub cen : ℕ
  pub cfn : ℕ
  pub cssa : ℕ
  pub cdsa : ℕ
  pub csei : ℕ
  pub csfi : ℕ
  pub cdei : ℕ
  pub cdfi : ℕ
  pub csac : ℕ
  pub cdac : ℕ
  pub color : ℕ
  pub cdp : ℕ
  pub cndp : ℕ
  pub ccdn : ℕ
  pub remaining : ℕ
  pub src : ℕ
  pub dst : ℕ
  pub active : Bool

abbrev pub zero_chan : Chan
zero_chan = record {
  ccr = 0;
  clnk = 0;
  cicr = 0;
  csr = 0;
  csdp = 0;
  cen = 0;
  cfn = 0;
  cssa = 0;
  cdsa = 0;
  csei = 0;
  csfi = 0;
  cdei = 0;
  cdfi = 0;
  csac = 0;
  cdac = 0;
  color = 0;
  cdp = 0;
  cndp = 0;
  ccdn = 0;
  remaining = 0;
  src = 0;
  dst = 0;
  active = false;
}

pub record Sdma (M : Type 0) : Type 0 where
  pub mem : M
  pub irq : ℕ → Bool
  pub engine : Option ℕ
  pub irqstatus : ℕ → ℕ
  pub irqenable : ℕ → ℕ
  pub ocp_sysconfig : ℕ
  pub gcr : ℕ
  pub ch : ℕ → Chan

abbrev pub elem_size : Chan → ℕ
elem_size c = 2 ^ bit_and c.csdp 3

-- The channel as `sdma_start` loads it.
abbrev pub loaded : Chan → Chan
loaded c = record c {
  src = c.cssa;
  dst = c.cdsa;
  remaining = u32 (bit_and c.cen 0xffffff * bit_and c.cfn 0xffff);
  active = true;
  csr = bit_and c.csr (not32 csr_started);
}

-- Is `addr` the data port of one of the controllers from `i` on?
unfoldable pub mmc_port_from : (ℕ → ℕ) → ℕ → ℕ → ℕ → Option ℕ
mmc_port_from bases zero i addr = none
mmc_port_from bases (suc n) i addr =
    let rest = mmc_port_from bases n (i + 1) addr in
    if nonzero (bases i) && addr == bases i + 0x220 then some i else rest

unfoldable pub mmc_port : (ℕ → ℕ) → ℕ → Option ℕ
mmc_port bases addr = mmc_port_from bases 5 0 addr

abbrev pub is_some : Option ℕ → Bool
is_some none = false
is_some (some i) = true

unfoldable pub is_port : (ℕ → ℕ) → ℕ → Bool
is_port bases addr = is_some (mmc_port bases addr)

module _ {M : Type 0} where
  unfoldable pub update_irq : Sdma M → Sdma M
  update_irq s = record s {
    irq = λ i. if ltb i 4 then has (s.irqstatus i) (s.irqenable i) else s.irq i;
  }

  unfoldable pub complete : Sdma M → ℕ → Sdma M
  complete s n =
      let c = s.ch n in
      let t = record s {
        ch = update s.ch n (record c {
          active = false;
          ccr = bit_and c.ccr (not32 ccr_enable);
          csr = bit_or c.csr csr_done;
        });
      } in
      update_irq (
        if has c.cicr csr_done
        then record t {
          irqstatus = λ i. if ltb i 4 then bit_or (t.irqstatus i) (2 ^ n) else t.irqstatus i;
        }
        else t)

module _ {M : Type 0} (ops : MemOps M) (bases : ℕ → ℕ) where
  -- May an element move now? The port's PSTATE is read, BRE (bit 11) or BWE (bit 10).
  unfoldable pub mmc_ready : M → Option ℕ → Bool → Bool × M
  mmc_ready m none for_read = (true, m)
  mmc_ready m (some idx) for_read =
      let (pstate, m') = ops.read m (bases idx + 0x224) 4 in
      (has pstate (if for_read then 2 ^ 11 else 2 ^ 10), m')

  unfoldable pub move : Chan → M → Chan × M
  move c m =
      let es = elem_size c in
      let (v, a) = ops.read m c.src es in
      let b = ops.write a c.dst es v in
      (
        record c {
          src = if nonzero (src_amode c.ccr) then u64 (c.src + es) else c.src;
          dst = if nonzero (dst_amode c.ccr) then u64 (c.dst + es) else c.dst;
          remaining = c.remaining - 1;
        },
        b,
      )

  -- The loop, with at most `n` more elements to move: the channel, the memory, the number moved.
  unfoldable pub copy : ℕ → Option ℕ → Option ℕ → Chan → M → Chan × M × ℕ
  copy zero from to c m = (c, m, 0)
  copy (suc n) from to c m =
      let (src_ready, a) = mmc_ready m from true in
      let (dst_ready, b) = mmc_ready a to false in
      let (c', d) = move c b in
      let (c'', e, moved) = copy n from to c' d in
      if c.remaining == 0
      then (c, m, 0)
      else if not src_ready
      then (c, a, 0)
      else if not dst_ready
      then (c, b, 0)
      else (c'', e, moved + 1)

  -- Each round of the loop takes one of the remaining elements, of which `max_elems` at most.
  unfoldable pub step : Sdma M → ℕ → ℕ → ℕ × Sdma M
  step s n max_elems =
      let c = s.ch n in
      let (d, m, moved) =
        copy (min c.remaining max_elems) (mmc_port bases c.src) (mmc_port bases c.dst) c s.mem in
      let t = record s {
        mem = m;
        ch = update s.ch n (record d { csac = u32 d.src; cdac = u32 d.dst });
      } in
      (moved, if d.remaining == 0 then complete t n else t)

  -- Channels `n` and on, `k` of them: the state, and whether one is still active.
  unfoldable pub engine_from : ℕ → ℕ → Sdma M → Bool × Sdma M
  engine_from zero n s = (false, s)
  engine_from (suc k) n s =
      let t = if (s.ch n).active then (step s n 4096).1 else s in
      let (pending, u) = engine_from k (n + 1) t in ((t.ch n).active || pending, u)

  unfoldable pub sdma_engine : Sdma M → ℕ → Sdma M
  sdma_engine s now =
      let (pending, t) = engine_from nch 0 s in
      if pending then record t { engine = some (now + 50000) } else t

  unfoldable pub start : Sdma M → ℕ → ℕ → Sdma M
  start s n now =
      let c = loaded (s.ch n) in
      let t = record s { ch = update s.ch n c } in
      let whole = (step t n (2 ^ 31 - 1)).1 in
      let some_of_it = (step t n 4096).1 in
      if c.remaining == 0
      then complete t n
      else if sync c.ccr == 0 && not (is_port bases c.src) && not (is_port bases c.dst)
      then whole
      else if (some_of_it.ch n).active
      then record some_of_it { engine = some (now + 20000) }
      else some_of_it

  unfoldable pub reset : Sdma M → Sdma M
  reset s = record s {
    ch = λ n. zero_chan;
    irqstatus = λ i. 0;
    irqenable = λ i. 0;
    ocp_sysconfig = 0;
    gcr = 0;
    engine = none;
  }
