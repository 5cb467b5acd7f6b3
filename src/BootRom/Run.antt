-- ===== src/BootRom/Run.antt =====
-- What the pieces of the boot ROM do to a core.
use garmin_gpsmap_emu.Prelude.{ℕ, zero, suc, ◌+◌, ◌%◌}
use garmin_gpsmap_emu.Prelude.{bit_and, bit_or}
use garmin_gpsmap_emu.Prelude.{◌≡◌, refl, ◌∙◌, arith}
use garmin_gpsmap_emu.Prelude.{Bool, true, false, if◌then◌else◌, ◌==◌}
use garmin_gpsmap_emu.Prelude.{Option, none, some, ◌∷◌}
use garmin_gpsmap_emu.Prelude.{update}
use garmin_gpsmap_emu.BootRom.{rom_base, mpcore_base, wkupgen_base, aux_boot0, build_boot_rom}
use garmin_gpsmap_emu.BootRom.{arm_b, arm_bne, emit, rom_emit_to_ns, vectors, primary, park_loop}
use garmin_gpsmap_emu.BootRom.Arm.{Core, execute, step, run}

-- The word of the wake-up generator that the loop polls.
abbrev pub boot_word : ℕ
boot_word = wkupgen_base + aux_boot0

-- A core that waits in WFI for the word.
unfoldable pub IsParked : Core → Type 0
IsParked c = (c.pc ≡ rom_base + 0x154) × (c.regs 1 ≡ boot_word) × (c.cpu.halted ≡ true)

-- The two cores are the same one and agree on what another world or the interrupt controller sees.
unfoldable pub SameWorld : Core → Core → Type 0
SameWorld c d =
    (d.cpsr ≡ c.cpsr)
    × (d.nsacr ≡ c.nsacr)
    × (d.scr ≡ c.scr)
    × (d.written ≡ c.written)
    × (d.cpu.cpu_index ≡ c.cpu.cpu_index)

pub run-suc :
    (n entry : ℕ) (device : ℕ → ℕ) (c d : Core)
    → step entry device c ≡ some d
    → run (suc n) entry device c ≡ run n entry device d
unfolding run
run-suc n entry device c d h = rw (run, h) refl

-- The load of the address to poll.
pub loads :
    (entry : ℕ) (device : ℕ → ℕ) (c : Core)
    → c.pc ≡ rom_base + 0x140
    → c.cpu.halted ≡ false
    → step entry device c
      ≡ some (record c { pc = rom_base + 0x144; regs = update c.regs 1 boot_word })
unfolding step execute build_boot_rom arm_b arm_bne emit rom_emit_to_ns vectors primary park_loop
loads entry device c p on = rw (p, on) refl

-- From the WFI back to the poll.
pub loops :
    (entry : ℕ) (device : ℕ → ℕ) (c : Core)
    → c.pc ≡ rom_base + 0x154
    → c.cpu.halted ≡ false
    → step entry device c ≡ some (record c { pc = rom_base + 0x144 })
unfolding step execute build_boot_rom arm_b arm_bne emit rom_emit_to_ns vectors primary park_loop
loops entry device c p on = rw (p, on) refl

-- The poll itself.
pub poll :
    (entry : ℕ) (device : ℕ → ℕ) (c : Core)
    → c.pc ≡ rom_base + 0x144
    → c.regs 1 ≡ boot_word
    → c.cpu.halted ≡ false
    → step entry device c
      ≡ some (record c { pc = rom_base + 0x148; regs = update c.regs 0 (device boot_word) })
unfolding step execute build_boot_rom arm_b arm_bne emit rom_emit_to_ns vectors primary park_loop
poll entry device c p q on = rw (p, step, execute, q, on) refl

-- With nothing to start at, the core halts.
pub halts :
    (entry : ℕ) (device : ℕ → ℕ) (c : Core)
    → c.cpu.halted ≡ false
    → run 3 entry device (record c { pc = rom_base + 0x148; regs = update c.regs 0 0 })
      ≡ some (record c {
        pc = rom_base + 0x154;
        regs = update c.regs 0 0;
        z = true;
        cpu = record c.cpu { halted = true };
      })
unfolding step execute build_boot_rom arm_b arm_bne emit rom_emit_to_ns vectors primary park_loop
    run
halts entry device c on = rw on refl

pub branch :
    (entry : ℕ) (device : ℕ → ℕ) (c : Core)
    → (c.regs 0 == 0) ≡ false
    → c.cpu.halted ≡ false
    → run 2 entry device (record c { pc = rom_base + 0x148 })
      ≡ some (record c { pc = rom_base + 0x158; z = false })
unfolding step execute build_boot_rom arm_b arm_bne emit rom_emit_to_ns vectors primary park_loop
    run
branch entry device c h on = rw (run, step, execute, h, on) refl

pub enters :
    (entry : ℕ) (device : ℕ → ℕ) (c : Core)
    → c.regs 1 ≡ boot_word
    → device (boot_word + 4) % 4 ≡ 0
    → c.cpu.halted ≡ false
    → step entry device (record c { pc = rom_base + 0x158 })
      ≡ some (record c { pc = device (boot_word + 4) })
unfolding step execute build_boot_rom arm_b arm_bne emit rom_emit_to_ns vectors primary park_loop
enters entry device c q h on = rw (step, execute, q, h, on) refl

-- A halted core waits for as long as nothing wakes it.
pub waits :
    (m entry : ℕ) (device : ℕ → ℕ) (c : Core) → c.cpu.halted ≡ true → run m entry device c ≡ some c
unfolding run
waits zero entry device c off = refl
waits (suc m) entry device c off =
    run-suc m entry device c c (unfold step in rw off refl) ∙ waits m entry device c off

-- The registers that the change of world leaves.
abbrev pub after_drop : Core → ℕ → ℕ → ℕ
after_drop c target =
    let groups = update (update c.regs 0 (mpcore_base + 0x104)) 1 0xff in
    let access =
      update (update (update groups 0 c.nsacr) 0 (bit_or c.nsacr 0xc00)) 0
        (bit_or (bit_or c.nsacr 0xc00) 0x40000) in
    let secure = update (update access 0 c.scr) 0 (bit_or c.scr 0x31) in
    update (update secure 1 0xd3) 14 target

-- The core after it.
abbrev pub dropped : Core → ℕ → Core
dropped c target = record {
  pc = target;
  regs = after_drop c target;
  z = c.z;
  cpsr = bit_or (bit_and c.spsr 0x00ffff00) 0xd3;
  spsr = bit_or (bit_and c.spsr 0x00ffff00) 0xd3;
  nsacr = bit_or (bit_or c.nsacr 0xc00) 0x40000;
  scr = bit_or c.scr 0x31;
  written = (mpcore_base + 0x104, 0xff) ∷ c.written;
  cpu = c.cpu;
}

pub drops_secondary :
    (entry : ℕ) (device : ℕ → ℕ) (c : Core)
    → c.pc ≡ rom_base + 0x40
    → c.cpu.halted ≡ false
    → run 16 entry device c ≡ some (dropped c (rom_base + 0x140))
unfolding step execute build_boot_rom arm_b arm_bne emit rom_emit_to_ns vectors primary park_loop
    run
drops_secondary entry device c p on = rw (p, on) refl

abbrev pub grouped : Core → Core
grouped c = record c {
  pc = rom_base + 0xc0;
  regs = update (update c.regs 0 (mpcore_base + 0x1080)) 1 0xffffffff;
  written =
      (mpcore_base + 0x1090, 0xffffffff)
      ∷ (mpcore_base + 0x108c, 0xffffffff)
      ∷ (mpcore_base + 0x1088, 0xffffffff)
      ∷ (mpcore_base + 0x1084, 0xffffffff)
      ∷ (mpcore_base + 0x1080, 0xffffffff)
      ∷ c.written;
}

pub groups_all :
    (entry : ℕ) (device : ℕ → ℕ) (c : Core)
    → c.pc ≡ rom_base + 0x90
    → c.cpu.halted ≡ false
    → run 8 entry device c ≡ some (grouped c)
unfolding step execute build_boot_rom arm_b arm_bne emit rom_emit_to_ns vectors primary park_loop
    run
groups_all entry device c p on = rw (p, on) refl

-- The last jump.
arrived :
    (b : Bool) (x : Core)
    → b ≡ true
    → (elim (if b then some x else none) as (λ x. Option Core) [ none ↦ none | some d ↦ some d ])
      ≡ some x
arrived b x h = rw h refl

pub drops_primary :
    (entry : ℕ) (device : ℕ → ℕ) (c : Core)
    → c.pc ≡ rom_base + 0xc0
    → c.cpu.halted ≡ false
    → entry % 4 ≡ 0
    → run 16 entry device c ≡ some (dropped c entry)
unfolding step execute build_boot_rom arm_b arm_bne emit rom_emit_to_ns vectors primary park_loop
    run
drops_primary entry device c p on h =
    let running : Core = record c { cpu = record c.cpu { halted = false } } in
    rw (p, on) (arrived (entry % 4 == 0) (dropped running entry) (ground arith))
