-- ===== src/Sdma/Transfer.antt =====
-- A whole memory-to-memory transfer of the system DMA of qemu/hw/arm/garmin_gpsmap.c, from
-- `sdma_start` to the completion.
use garmin_gpsmap_emu.Prelude.{ℕ, ◌+◌, ◌-◌, ◌*◌, ◌%◌, ◌^◌, ◌≤◌, ◌<◌, min}
use garmin_gpsmap_emu.Prelude.{bit_and, u32, not32}
use garmin_gpsmap_emu.Prelude.{◌≡◌, refl, ap, ◌∙◌, ◌⊎◌, arith}
use garmin_gpsmap_emu.Prelude.{false, not, ◌&&◌, ◌==◌}
use garmin_gpsmap_emu.Prelude.{none}
use garmin_gpsmap_emu.Prelude.{update}
use garmin_gpsmap_emu.Prelude.Bits.{bit, bit-and, bit-not32}
use garmin_gpsmap_emu.Prelude.Bits.{bit-two_pow}
use garmin_gpsmap_emu.Prelude.{if_elim}
use garmin_gpsmap_emu.Sdma.{
  MemOps, Chan, Sdma, ccr_enable, sync, elem_size, mmc_port, complete, update_irq, copy, step,
  loaded, is_some, is_port, start,
}
use garmin_gpsmap_emu.Sdma.Copy.{IsRam, Apart, IsLinear, copies}

module _ {M : Type 0} (ops : MemOps M) (bases : ℕ → ℕ) where
  -- The transfer of channel `n`, programmed as `c`, is over: the elements are in place, memory
  -- outside the destination is what it was, and the channel is stopped and disabled.
  pub record IsDone (c : Chan) (m : M) (n : ℕ) (t : Sdma M) : Type 0 where
    pub copied :
        (i : ℕ)
        → i < (loaded c).remaining
        → (ops.read t.mem (c.cdsa + i * elem_size c) (elem_size c)).0
          ≡ (ops.read m (c.cssa + i * elem_size c) (elem_size c)).0
    pub kept :
        (b : ℕ)
        → (b + elem_size c ≤ c.cdsa) ⊎ (c.cdsa + (loaded c).remaining * elem_size c ≤ b)
        → (ops.read t.mem b (elem_size c)).0 ≡ (ops.read m b (elem_size c)).0
    pub stopped : (t.ch n).active ≡ false
    pub disabled : bit (t.ch n).ccr 7 ≡ 0

  complete_lem :
      (s : Sdma M) (n : ℕ)
      → ((complete s n).mem ≡ s.mem)
        × (((complete s n).ch n).active ≡ false)
        × (((complete s n).ch n).ccr ≡ bit_and (s.ch n).ccr (not32 ccr_enable))
  unfolding complete update_irq
  complete_lem s n = ground arith

  disabled_bit : (x : ℕ) → bit (bit_and x (not32 ccr_enable)) 7 ≡ 0
  disabled_bit x =
      omega
        (arith, bit-and x (2 ^ 32 - 1 - 2 ^ 7 % 2 ^ 32) 7, bit-not32 (2 ^ 7) 7 (omega arith), flag)
    where
      flag : bit (2 ^ 7) 7 ≡ 1
      flag = bit-two_pow 7 7

  -- A completed state over a memory in which the elements are in place.
  completed :
      (c : Chan) (m : M) (n : ℕ) (s : Sdma M)
      → ((i : ℕ)
          → i < (loaded c).remaining
          → (ops.read s.mem (c.cdsa + i * elem_size c) (elem_size c)).0
            ≡ (ops.read m (c.cssa + i * elem_size c) (elem_size c)).0)
      → ((b : ℕ)
          → (b + elem_size c ≤ c.cdsa) ⊎ (c.cdsa + (loaded c).remaining * elem_size c ≤ b)
          → (ops.read s.mem b (elem_size c)).0 ≡ (ops.read m b (elem_size c)).0)
      → IsDone c m n (complete s n)
  completed c m n s f g =
      let (a, b, d) = complete_lem s n in
      record {
        copied = λ i h. ap (λ x. (ops.read x (c.cdsa + i * elem_size c) (elem_size c)).0) a ∙ f i h;
        kept = λ x h. ap (λ y. (ops.read y x (elem_size c)).0) a ∙ g x h;
        stopped = b;
        disabled = ap (λ x. bit x 7) d ∙ disabled_bit (s.ch n).ccr;
      }

  -- A step that moves everything completes.
  step_whole :
      (s : Sdma M) (n max_elems : ℕ) (c : Chan)
      → s.ch n ≡ c
      → mmc_port bases c.src ≡ none
      → mmc_port bases c.dst ≡ none
      → c.remaining ≤ max_elems
      → (copy ops bases c.remaining none none c s.mem).0.remaining ≡ 0
      → (step ops bases s n max_elems).1 ≡ (
          let r = copy ops bases c.remaining none none c s.mem in
          complete
            (record s {
              mem = r.1;
              ch = update s.ch n (record r.0 { csac = u32 r.0.src; cdac = u32 r.0.dst });
            })
            n)
  unfolding step
  step_whole s n max_elems c w p q fits e =
      let k : min c.remaining max_elems ≡ c.remaining = omega arith in rw (w, p, q, k, e) refl

  no_port : (addr : ℕ) → mmc_port bases addr ≡ none → is_port bases addr ≡ false
  unfolding is_port
  no_port addr e = ap is_some e

  update_self : {A : Type 0} (f : ℕ → A) (n : ℕ) (a : A) → update f n a n ≡ a
  update_self f n a = ground arith

  -- Enabling a channel without hardware synchronisation between two separate buffers of RAM, both
  -- stepped through, neither a data port of an MMC controller, copies the whole buffer at once:
  -- every element is in place, the rest of memory is as before, and the channel is stopped and
  -- disabled. Elements have up to four bytes, the buffers end below 2^64 and the transfer has
  -- fewer than 2^31 elements.
  pub start_copies :
      (s : Sdma M) (n now : ℕ)
      → IsRam ops (elem_size (s.ch n))
      → elem_size (s.ch n) ≤ 4
      → sync (s.ch n).ccr ≡ 0
      → mmc_port bases (s.ch n).cssa ≡ none
      → mmc_port bases (s.ch n).cdsa ≡ none
      → IsLinear (loaded (s.ch n)) (loaded (s.ch n)).remaining
      → Apart ((loaded (s.ch n)).remaining * elem_size (s.ch n)) (s.ch n).cssa (s.ch n).cdsa
      → (loaded (s.ch n)).remaining < 2 ^ 31
      → IsDone (s.ch n) s.mem n (start ops bases s n now)
  unfolding start
  start_copies s n now ram small nosync p q l h fits =
      let c = loaded (s.ch n) in
      let t = record s { ch = update s.ch n c } in
      let v = copies ops bases c.remaining c s.mem (elem_size (s.ch n)) refl ram l h in
      if_elim (IsDone (s.ch n) s.mem n) (c.remaining == 0)
        (λ e. completed (s.ch n) s.mem n t (λ i hi. absurd (ground arith)) (λ b hb. refl))
        (λ e.
          if_elim (IsDone (s.ch n) s.mem n)
            (sync c.ccr == 0 && not (is_port bases c.src) && not (is_port bases c.dst))
            (λ _.
              rw
                (step_whole t n (2 ^ 31 - 1) c (update_self s.ch n c) p q (omega (arith, fits))
                  (omega (arith, v.left)))
                (completed (s.ch n) s.mem n _ v.copied v.kept))
            (λ no. absurd (ground (arith, nosync, no_port c.src p, no_port c.dst q))))
