-- ===== src/Sdma/Tests.antt =====
-- The system DMA at concrete inputs.
use garmin_gpsmap_emu.Prelude.{ℕ, ◌+◌, ◌%◌, ◌≤◌}
use garmin_gpsmap_emu.Prelude.{nonzero}
use garmin_gpsmap_emu.Prelude.{◌≡◌, refl, inl, arith}
use garmin_gpsmap_emu.Prelude.{false, if◌then◌else◌, ◌==◌}
use garmin_gpsmap_emu.Prelude.{none}
use garmin_gpsmap_emu.Prelude.{update}
use garmin_gpsmap_emu.Sdma.{MemOps, Chan, Sdma, zero_chan, mmc_port, mmc_port_from, step, start}
use garmin_gpsmap_emu.Sdma.Copy.{IsRam}
use garmin_gpsmap_emu.Sdma.Transfer.{IsDone, start_copies}
use garmin_gpsmap_emu.Sdma.Progress.{step_counts}

-- A memory of bytes, read and written one at a time.
abbrev bytes : MemOps (ℕ → ℕ)
bytes = record { read = λ m a size. (m a, m); write = λ m a size v. update m a v }

bytes-IsRam : IsRam bytes 1
bytes-IsRam = record {
  pure = λ m a. refl;
  same = λ m a b. ground arith;
  apart = λ m a b v h. ground arith;
}

-- No MMC controller is there.
abbrev no_bases : ℕ → ℕ
no_bases i = 0

-- Sixteen bytes from 0x80000000 to 0x80001000, both stepped through.
abbrev copying : Chan
copying = record zero_chan { ccr = 0x5080; cen = 16; cfn = 1; cssa = 0x80000000; cdsa = 0x80001000 }

abbrev ready : Sdma (ℕ → ℕ)
ready = record {
  mem = λ a. a % 256;
  irq = λ i. false;
  engine = none;
  irqstatus = λ i. 0;
  irqenable = λ i. 0;
  ocp_sysconfig = 0;
  gcr = 0;
  ch = λ n. copying;
}

start_copies_example :
    IsDone bytes no_bases (ready.ch 3) ready.mem 3 (start bytes no_bases ready 3 0)
unfolding mmc_port mmc_port_from
start_copies_example =
    start_copies bytes no_bases ready 3 0 bytes-IsRam (omega arith) refl refl refl
      (record {
        src_steps = omega arith;
        dst_steps = omega arith;
        src_fits = omega arith;
        dst_fits = omega arith;
        enough = omega arith;
      })
      (inl (omega arith)) (omega arith)

-- A channel with more left than the engine moves at once.
abbrev running : Sdma (ℕ → ℕ)
running = record ready { ch = λ n. record copying { active = (n == 3); remaining = 5 } }

-- A controller that is never ready holds the channel.
abbrev one_base : ℕ → ℕ
one_base i = if i == 0 then 0x4809c000 else 0

abbrev waiting : Sdma (ℕ → ℕ)
waiting = record ready {
  mem = λ a. 0;
  ch = λ n. record copying { active = (n == 3); remaining = 5; src = 0x4809c220; dst = 0x80001000 };
}

step_counts_example :
    ((step bytes no_bases running 3 2).0 ≤ 2)
    × (((step bytes no_bases running 3 2).1.ch 3).remaining + (step bytes no_bases running 3 2).0
        ≡ 5)
    × (((step bytes no_bases running 3 2).1.ch 3).active
        ≡ nonzero ((step bytes no_bases running 3 2).1.ch 3).remaining)
step_counts_example = step_counts bytes no_bases running 3 2 refl
