-- ===== src/BootRom/Start.antt =====
-- How the two cores start from the boot ROM.
use garmin_gpsmap_emu.Prelude.{ℕ, zero, suc, ◌+◌, ◌-◌, ◌%◌, ◌^◌}
use garmin_gpsmap_emu.Prelude.{bit_and, bit_or}
use garmin_gpsmap_emu.Prelude.{◌≡◌, refl, sym, ap, ◌∙◌, ◌≢◌, inl, inr, arith}
use garmin_gpsmap_emu.Prelude.{true, false, ◌==◌}
use garmin_gpsmap_emu.Prelude.{Option, none, some, [], ◌∷◌, Option-cases}
use garmin_gpsmap_emu.Prelude.{update}
use garmin_gpsmap_emu.RegStub.{Cpu, wkupgen_write_hook}
use garmin_gpsmap_emu.BootRom.{rom_base, mpcore_base, aux_boot0}
use garmin_gpsmap_emu.BootRom.Arm.{Core, step, run, roused}
use garmin_gpsmap_emu.BootRom.Run.{IsParked, SameWorld, boot_word, run-suc, loads, loops, poll}
use garmin_gpsmap_emu.BootRom.Run.{halts, branch, enters, waits}
use garmin_gpsmap_emu.BootRom.Run.{drops_secondary, groups_all, drops_primary, dropped, grouped}

-- Runs one after the other.
and_then : Option Core → (Core → Option Core) → Option Core
and_then none f = none
and_then (some d) f = f d

run_add :
    (m n entry : ℕ) (device : ℕ → ℕ) (c : Core)
    → run (m + n) entry device c ≡ and_then (run m entry device c) (λ d. run n entry device d)
unfolding run and_then
run_add zero n entry device c = rw (let e : 0 + n ≡ n = omega arith in e) refl
run_add (suc m) n entry device c =
    let e : suc m + n ≡ suc (m + n) = omega arith in
    ap (λ k. run k entry device c) e ∙ elim (Option-cases (step entry device c)) [
      | inl h ↦ rw (run, h) refl
      | inr (d, h) ↦ rw (run, h) (run_add m n entry device d)
    ]

run_then :
    (m n entry : ℕ) (device : ℕ → ℕ) (c d : Core)
    → run m entry device c ≡ some d
    → run (m + n) entry device c ≡ run n entry device d
unfolding and_then
run_then m n entry device c d h =
    run_add m n entry device c ∙ ap (λ o. and_then o (λ d. run n entry device d)) h

not_zero : (v : ℕ) → v ≢ 0 → (v == 0) ≡ false
not_zero v h = ground arith

-- From the poll of an idle word to the WFI.
parks :
    (entry : ℕ) (device : ℕ → ℕ) (c : Core)
    → c.pc ≡ rom_base + 0x144
    → c.regs 1 ≡ boot_word
    → c.cpu.halted ≡ false
    → device boot_word ≡ 0
    → (d : Core) × (run 4 entry device c ≡ some d) × IsParked d × SameWorld c d
unfolding IsParked SameWorld
parks entry device c p q on h = (
  record c {
    pc = rom_base + 0x154;
    regs = update c.regs 0 0;
    z = true;
    cpu = record c.cpu { halted = true };
  },
  run-suc 3 entry device c
        (record c { pc = rom_base + 0x148; regs = update c.regs 0 (device boot_word) })
        (poll entry device c p q on)
      ∙ rw h (halts entry device c on),
  (refl, q, refl),
  (refl, refl, refl, refl, refl),
)

-- A wake-up for nothing.
turn :
    (entry : ℕ) (device : ℕ → ℕ) (c : Core)
    → IsParked c
    → device boot_word ≡ 0
    → (d : Core) × (run 5 entry device (record c { cpu = record c.cpu { halted = false } })
        ≡ some d)
      × IsParked d
      × SameWorld c d
unfolding IsParked SameWorld
turn entry device c (p, q, off) h =
    let woken : Core = record c { cpu = record c.cpu { halted = false } } in
    let looped : Core = record woken { pc = rom_base + 0x144 } in
    let (d, r, parked, world) = parks entry device looped refl q refl h in
    (d, run-suc 4 entry device woken looped (loops entry device woken p refl) ∙ r, parked, world)

roused-suc :
    (n entry : ℕ) (device : ℕ → ℕ) (c d : Core)
    → run 5 entry device (record c { cpu = record c.cpu { halted = false } }) ≡ some d
    → roused (suc n) entry device c ≡ roused n entry device d
unfolding roused
roused-suc n entry device c d h = rw (roused, h) refl

turns :
    (n entry : ℕ) (device : ℕ → ℕ) (c : Core)
    → IsParked c
    → device boot_word ≡ 0
    → (d : Core) × (roused n entry device c ≡ some d) × IsParked d × SameWorld c d
unfolding SameWorld
turns zero entry device c p h = (c, unfold roused in refl, p, (refl, refl, refl, refl, refl))
turns (suc n) entry device c p h =
    let (d, r, q, a) = turn entry device c p h in
    let (e, r', q', b) = turns n entry device d q h in
    (
      e,
      roused-suc n entry device c d r ∙ r',
      q',
      (b.0 ∙ a.0, b.1 ∙ a.1, b.2 ∙ a.2, b.3 ∙ a.3, b.4 ∙ a.4),
    )

-- From the WFI to the start, once the core runs again and the word is set.
leaves :
    (entry : ℕ) (device : ℕ → ℕ) (c : Core)
    → c.pc ≡ rom_base + 0x154
    → c.regs 1 ≡ boot_word
    → c.cpu.halted ≡ false
    → device boot_word ≢ 0
    → device (boot_word + 4) % 4 ≡ 0
    → (d : Core) × (run 5 entry device c ≡ some d) × (d.pc ≡ device (boot_word + 4)) × SameWorld c d
unfolding SameWorld
leaves entry device c p q on h a =
    let looped : Core = record c { pc = rom_base + 0x144 } in
    let polled : Core = record c {
      pc = rom_base + 0x148;
      regs = update c.regs 0 (device boot_word);
    } in
    let gone : Core = record polled { pc = rom_base + 0x158; z = false } in
    let out : Core = record gone { pc = device (boot_word + 4) } in
    (
      out,
      run-suc 4 entry device c looped (loops entry device c p on)
          ∙ run-suc 3 entry device looped polled (poll entry device looped refl q on)
          ∙ run_then 2 1 entry device polled gone
              (branch entry device polled (not_zero (device boot_word) h) on)
          ∙ run-suc 0 entry device gone out (enters entry device gone q a on)
          ∙ unfold run in refl,
      refl,
      (refl, refl, refl, refl, refl),
    )

-- What the hook of the wake-up generator makes of a halted secondary core.
abbrev pub released : Cpu → Cpu
released p = record p { halted = false; kicked = true }

hook-releases :
    (p : Cpu) (val : ℕ)
    → p.halted ≡ true
    → p.cpu_index ≢ 0
    → val ≢ 0
    → wkupgen_write_hook (p ∷ []) aux_boot0 val ≡ released p ∷ []
unfolding wkupgen_write_hook
hook-releases p val off other some_val =
    let n : (p.cpu_index == 0) ≡ false = not_zero p.cpu_index other in
    let v : (val == 0) ≡ false = not_zero val some_val in rw (off, n, v) refl

-- The primary core gets from its entry of the ROM to the firmware's entry, if that is a multiple of 4,
-- with every interrupt in group 1, the secure priority mask open, the Non-secure world allowed the
-- floating point unit and SMP bit, SCR's NS, FW and AW set, and in SVC mode with
-- interrupts masked; bytes 1 and 2 of CPSR are those of the monitor's SPSR.
pub primary_starts :
    (entry : ℕ) (device : ℕ → ℕ) (c : Core)
    → c.pc ≡ rom_base + 0x90
    → c.cpu.halted ≡ false
    → entry % 4 ≡ 0
    → (d : Core) × (run 24 entry device c ≡ some d)
      × (d.pc ≡ entry)
      × (d.cpsr ≡ bit_or (bit_and c.spsr 0x00ffff00) 0xd3)
      × (d.scr ≡ bit_or c.scr 0x31)
      × (d.nsacr ≡ bit_or (bit_or c.nsacr 0xc00) 0x40000)
      × (d.written
          ≡ (mpcore_base + 0x104, 0xff)
            ∷ (mpcore_base + 0x1090, 2 ^ 32 - 1)
            ∷ (mpcore_base + 0x108c, 2 ^ 32 - 1)
            ∷ (mpcore_base + 0x1088, 2 ^ 32 - 1)
            ∷ (mpcore_base + 0x1084, 2 ^ 32 - 1)
            ∷ (mpcore_base + 0x1080, 2 ^ 32 - 1)
            ∷ c.written)
primary_starts entry device c p on h = (
  dropped (grouped c) entry,
  run_then 8 16 entry device c (grouped c) (groups_all entry device c p on)
      ∙ drops_primary entry device (grouped c) refl on h,
  refl,
  refl,
  refl,
  refl,
  refl,
)

-- A running secondary core drops to the Non-secure world the same way and finds AUX_CORE_BOOT_0 at 0:
-- after 21 steps it is halted. However often an interrupt wakes it, it halts again, and it stays where
-- it is as long as nothing does. When the word is written, `wkupgen_write_hook` releases it, and five
-- steps later it is at the address in AUX_CORE_BOOT_1, if that is a multiple of 4.
pub secondary_starts :
    (n entry : ℕ) (idle ready : ℕ → ℕ) (c : Core)
    → c.pc ≡ rom_base + 0x40
    → c.cpu.halted ≡ false
    → c.cpu.cpu_index ≢ 0
    → idle boot_word ≡ 0
    → ready boot_word ≢ 0
    → ready (boot_word + 4) % 4 ≡ 0
    → (b d e : Core) × (run 21 entry idle c ≡ some b)
      × (roused n entry idle b ≡ some d)
      × ((m : ℕ) (device : ℕ → ℕ) → run m entry device d ≡ some d)
      × (wkupgen_write_hook (d.cpu ∷ []) aux_boot0 (ready boot_word) ≡ released d.cpu ∷ [])
      × (run 5 entry ready (record d { cpu = released d.cpu }) ≡ some e)
      × (e.pc ≡ ready (boot_word + 4))
      × (e.cpsr ≡ bit_or (bit_and c.spsr 0x00ffff00) 0xd3)
      × (e.scr ≡ bit_or c.scr 0x31)
      × (e.nsacr ≡ bit_or (bit_or c.nsacr 0xc00) 0x40000)
      × (e.written ≡ (mpcore_base + 0x104, 0xff) ∷ c.written)
unfolding SameWorld IsParked
secondary_starts n entry idle ready c p on other h go a =
    let x = dropped c (rom_base + 0x140) in
    let y : Core = record x { pc = rom_base + 0x144; regs = update x.regs 1 boot_word } in
    let (b, rb, pb, wb) = parks entry idle y refl refl on h in
    let (d, rd, pd, wd) = turns n entry idle b pb h in
    let index : d.cpu.cpu_index ≢ 0 = λ z. other (sym (wd.4 ∙ wb.4) ∙ z) in
    let (e, re, pe, we) =
      leaves entry ready (record d { cpu = released d.cpu }) pd.0 pd.1 refl go a in
    (
      b,
      d,
      e,
      run_then 16 5 entry idle c x (drops_secondary entry idle c p on)
          ∙ run-suc 4 entry idle x y (loads entry idle x refl on)
          ∙ rb,
      rd,
      λ m device. waits m entry device d pd.2,
      hook-releases d.cpu (ready boot_word) pd.2 index go,
      re,
      pe,
      we.0 ∙ wd.0 ∙ wb.0,
      we.2 ∙ wd.2 ∙ wb.2,
      we.1 ∙ wd.1 ∙ wb.1,
      we.3 ∙ wd.3 ∙ wb.3,
    )
