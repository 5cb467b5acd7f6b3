-- ===== src/Hsmmc/Tests.antt =====
-- The HSMMC wrapper at concrete inputs.
use garmin_gpsmap_emu.Prelude.{ℕ, ◌+◌, ◌*◌, ◌%◌, ◌^◌}
use garmin_gpsmap_emu.Prelude.{◌≡◌, arith}
use garmin_gpsmap_emu.Prelude.{false}
use garmin_gpsmap_emu.Prelude.{replicate}
use garmin_gpsmap_emu.Hsmmc.{SdhciOps, Hsmmc, reshift, core_write}
use garmin_gpsmap_emu.Hsmmc.Response.{word128, value, value-reshift}

-- An SDHCI whose state counts the reads, which it answers by the offset.
abbrev counting : SdhciOps ℕ
counting = record {
  dispatch_read = λ n addr size. (addr + n, n + 1);
  dispatch_write = λ n addr v size. n;
}

abbrev idle : Hsmmc ℕ
idle = record {
  sdhci = 0;
  wrapregs = λ i. 0;
  last_r2 = false;
  rsp = replicate 4 0;
  rsp_valid = false;
}

-- ALL_SEND_CID, whose response is an R2.
abbrev sent : Hsmmc ℕ
unfolding core_write
sent = core_write counting idle 0x0c 0x02010000 4

value-reshift_example :
    value (reshift 0x44332211 0x88776655 0xccbbaa99 0x00ffeedd)
    ≡ (word128 0x44332211 0x88776655 0xccbbaa99 0x00ffeedd * 2 ^ 8 + 1) % 2 ^ 128
value-reshift_example =
    value-reshift 0x44332211 0x88776655 0xccbbaa99 0x00ffeedd (omega arith) (omega arith)
      (omega arith) (omega arith)
