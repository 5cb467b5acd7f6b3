-- ===== src/Gl/Hook.antt =====
-- A call of a hooked function.
use garmin_gpsmap_emu.Prelude.{ℕ, zero, suc, ◌+◌, ◌-◌, ◌*◌, ◌/◌, ◌%◌, ◌≤◌, ◌<◌, min}
use garmin_gpsmap_emu.Prelude.{bit_and, bit_or, u32, shr}
use garmin_gpsmap_emu.Prelude.{◌≡◌, refl, ap, ◌∙◌, ◌≢◌, arith}
use garmin_gpsmap_emu.Prelude.{true, if◌then◌else◌, ltb, leb}
use garmin_gpsmap_emu.Prelude.{some, List, ◌∷◌}
use garmin_gpsmap_emu.Prelude.{update, get_or}
use garmin_gpsmap_emu.Prelude.Bits.{bit_and_mask}
use native.Mathlib.Decide.{dec_lt}
use garmin_gpsmap_emu.Prelude.Fields.{bit_or-disjoint}
use garmin_gpsmap_emu.Gl.{mmio_base, result_off, max_hooks, put16, enc_mov_imm16, enc_trampoline}
use garmin_gpsmap_emu.Gl.{Gl, no_hook, arguments, gl_trap, mmio_read, mmio_write}
use garmin_gpsmap_emu.Gl.Thumb.{Core, halfword, execute, step, run}
use garmin_gpsmap_emu.Gl.Placed.{code, Holds, trampoline-Holds}

field : (slot : ℕ) → slot < max_hooks → bit_or 0xc000 (slot * 4) ≡ 0xc000 + slot * 4
field slot h = bit_or-disjoint 12 12 (slot * 4) (omega arith)

split : (v : ℕ) → bit_and v 0xff + 256 * shr v 8 ≡ v
split v = omega (arith, bit_and_mask 8 v)

trap_halfword : (slot : ℕ) → slot < max_hooks → halfword (code slot) 10 ≡ 0xc000 + slot * 4
unfolding code enc_trampoline enc_mov_imm16 put16
trap_halfword slot h = split (bit_or 0xc000 (slot * 4)) ∙ field slot h

module _ {S : Type 0} (dispatch : S → ℕ → List ℕ → S × ℕ) (word : ℕ → ℕ) where
  low :
      (slot : ℕ) (c : Core S)
      → c.at ≡ 0
      → step dispatch word (code slot) c
        ≡ some (record c { at = 4; regs = update c.regs 12 0xf000 })
  unfolding code enc_trampoline enc_mov_imm16 put16 step execute
  low slot c h = rw (h, step, execute) refl

  high :
      (slot : ℕ) (c : Core S)
      → c.at ≡ 4
      → c.regs 12 ≡ 0xf000
      → step dispatch word (code slot) c
        ≡ some (record c { at = 8; regs = update c.regs 12 mmio_base })
  unfolding code enc_trampoline enc_mov_imm16 put16 step execute
  high slot c h e = rw (h, step, execute, e) refl

  -- The first four instructions of a memory that holds the trampoline are the trampoline's.
  step-Holds :
      (place slot : ℕ) (memory : ℕ → ℕ) (c : Core S)
      → Holds 18 place memory (code slot)
      → c.at ≤ 14
      → step dispatch word (λ k. memory (place + k)) c ≡ step dispatch word (code slot) c
  unfolding step Holds
  step-Holds place slot memory c holds h =
      let bytes : ℕ → ℕ = λ k. memory (place + k) in
      let same : (k : ℕ) → k < 18 → bytes k ≡ code slot k = holds in
      rw
        (
          same c.at (omega arith),
          same (c.at + 1) (omega arith),
          same (c.at + 2) (omega arith),
          same (c.at + 2 + 1) (omega arith),
        )
        refl

  returns :
      (place slot : ℕ) (memory : ℕ → ℕ) (c : Core S)
      → Holds 18 place memory (code slot)
      → c.at ≡ 16
      → step dispatch word (λ k. memory (place + k)) c
        ≡ some (record c { returned = some (c.regs 14) })
  unfolding step Holds execute code enc_trampoline put16
  returns place slot memory c holds h =
      rw (h, step, holds 16 (omega arith), holds 17 (omega arith), execute) refl

  run-suc :
      (n : ℕ) (bytes : ℕ → ℕ) (c d : Core S)
      → step dispatch word bytes c ≡ some d
      → run dispatch word (suc n) bytes c ≡ run dispatch word n bytes d
  unfolding run
  run-suc n bytes c d h = rw (run, h) refl

  store :
      (slot : ℕ) (c : Core S)
      → slot < max_hooks
      → c.regs 12 ≡ mmio_base
      → execute dispatch word 0xf8cc (0xc000 + slot * 4) c
        ≡ some (record c { at = c.at + 4; gl = mmio_write dispatch word c.regs c.gl (slot * 4) })
  unfolding execute
  store slot c h base =
      let place : (0xc000 + slot * 4) % 4096 ≡ slot * 4 = omega arith in
      let address : (mmio_base + slot * 4) % 4294967296 ≡ mmio_base + slot * 4 = omega arith in
      let inside : leb mmio_base (mmio_base + slot * 4) ≡ true = ground arith in
      let offset : mmio_base + slot * 4 - mmio_base ≡ slot * 4 = omega arith in
      rw (base, place, address, inside, offset) refl

  traps :
      (slot : ℕ) (c : Core S)
      → slot < max_hooks
      → c.at ≡ 8
      → c.regs 12 ≡ mmio_base
      → step dispatch word (code slot) c
        ≡ some (record c { at = 12; gl = mmio_write dispatch word c.regs c.gl (slot * 4) })
  unfolding code enc_trampoline enc_mov_imm16 put16 step
  traps slot c h at base = rw (at, trap_halfword slot h) (store slot (record c { at = 8 }) h base)

  answers :
      (slot : ℕ) (c : Core S)
      → c.at ≡ 12
      → c.regs 12 ≡ mmio_base
      → step dispatch word (code slot) c
        ≡ some (record c { at = 16; regs = update c.regs 0 c.gl.result })
  unfolding code enc_trampoline enc_mov_imm16 put16 step execute mmio_read
  answers slot c at base = rw (at, step, execute, base) refl

  abbrev Agree : (ℕ → ℕ) → (ℕ → ℕ) → Type 0
  Agree regs regs' = (k : ℕ) → k ≢ 12 → regs k ≡ regs' k

  arguments-Agree :
      (regs regs' : ℕ → ℕ) (n i : ℕ)
      → Agree regs regs'
      → arguments regs word n i ≡ arguments regs' word n i
  unfolding arguments
  arguments-Agree regs regs' zero i h = refl
  arguments-Agree regs regs' (suc n) i h =
      let e : regs 13 ≡ regs' 13 = h 13 (omega arith) in
      let rest = word (u32 (regs' 13 + 4 * (i - 4))) in
      let low : (if ltb i 4 then regs i else rest) ≡ (if ltb i 4 then regs' i else rest) =
        elim (dec_lt i 4) [
          | yes p ↦ ap (λ x. if ltb i 4 then x else rest) (h i (omega arith))
          | no p ↦ ground arith
        ] in
      let first : (if ltb i 4 then regs i else word (u32 (regs 13 + 4 * (i - 4))))
          ≡ (if ltb i 4 then regs' i else word (u32 (regs' 13 + 4 * (i - 4)))) =
        ap (λ r13. if ltb i 4 then regs i else word (u32 (r13 + 4 * (i - 4)))) e ∙ low in
      ap (λ x. x ∷ arguments regs word n (suc i)) first
      ∙ ap (λ xs. (if ltb i 4 then regs' i else word (u32 (regs' 13 + 4 * (i - 4)))) ∷ xs)
          (arguments-Agree regs regs' n (suc i) h)

  trap-Agree :
      (regs regs' : ℕ → ℕ) (slot : ℕ) (g : Gl S)
      → slot < max_hooks
      → Agree regs regs'
      → mmio_write dispatch word regs g (slot * 4) ≡ gl_trap dispatch word regs' slot g
  unfolding mmio_write gl_trap
  trap-Agree regs regs' slot g small h =
      let inside : ltb (slot * 4) result_off ≡ true = ground arith in
      let back : slot * 4 / 4 ≡ slot = omega arith in
      let same = arguments-Agree regs regs' (min (get_or g.hooks slot no_hook).nargs 16) 0 h in
      rw (mmio_write, inside, back, gl_trap, same) refl

  -- A call of a function over whose entry the trampoline of `slot` is written returns to the caller
  -- after 5 instructions. The trap has run the hook of that slot at the caller's registers, r0 is the
  -- value that the trap leaves as the result, and every other register but r12 is the caller's.
  pub hooked_call :
      (memory : ℕ → ℕ) (entry slot : ℕ) (c : Core S)
      → slot < max_hooks
      → c.at ≡ 0
      → (d : Core S) × (run dispatch word 5 (λ k. enc_trampoline memory entry slot (entry + k)) c
          ≡ some d)
        × (d.gl ≡ gl_trap dispatch word c.regs slot c.gl)
        × (d.returned ≡ some (c.regs 14))
        × (d.regs 0 ≡ d.gl.result)
        × ((k : ℕ) → k ≢ 0 → k ≢ 12 → d.regs k ≡ c.regs k)
  hooked_call memory entry slot c h at =
      let patched = enc_trampoline memory entry slot in
      let holds = trampoline-Holds memory entry slot in
      let bytes : ℕ → ℕ = λ k. patched (entry + k) in
      let based = update (update c.regs 12 0xf000) 12 mmio_base in
      let first = record c { at = 4; regs = update c.regs 12 0xf000 } in
      let loaded = record c { at = 8; regs = based } in
      let g = mmio_write dispatch word based c.gl (slot * 4) in
      let trapped = record loaded { at = 12; gl = g } in
      let answered = record trapped { at = 16; regs = update based 0 g.result } in
      (
        record answered { returned = some (c.regs 14) },
        run-suc 4 bytes c first
              (step-Holds entry slot patched c holds (omega arith) ∙ low slot c at)
            ∙ run-suc 3 bytes first loaded (
                step-Holds entry slot patched first holds (omega arith) ∙ high slot first refl refl)
            ∙ run-suc 2 bytes loaded trapped (
                step-Holds entry slot patched loaded holds (omega arith)
                ∙ traps slot loaded h refl refl)
            ∙ run-suc 1 bytes trapped answered (
                step-Holds entry slot patched trapped holds (omega arith)
                ∙ answers slot trapped refl refl)
            ∙ run-suc 0 bytes answered (record answered { returned = some (c.regs 14) })
                (returns entry slot patched answered holds refl)
            ∙ unfold run in refl,
        trap-Agree based c.regs slot c.gl h (λ k n. ground arith),
        refl,
        refl,
        λ k a b. ground arith,
      )
