-- ===== src/Machine/Preset.antt =====
-- The values at power-up of the register stubs in qemu/hw/arm/garmin_gpsmap.c, `gpsmap_init`.
use garmin_gpsmap_emu.Prelude.{arith, ℕ, zero, suc, ◌+◌, ◌%◌, ◌≤◌, ◌<◌, ◌≡◌, refl, ap, ==_iff}
use garmin_gpsmap_emu.Prelude.{Bool, true, ◌&&◌, ◌==◌, leb, and_both, leb→le}
use garmin_gpsmap_emu.Prelude.{List, [], ◌∷◌, length, get_or}
use garmin_gpsmap_emu.RegStub.{RegStub, read, stub_set, stub_selfclear}
use garmin_gpsmap_emu.Machine.Stubs.{StubInit, stub_of, apply_presets, make_stub, stubs}

-- The preset lies in the stub, and a read of its word finds it before the stub's fixup.
abbrev preset_ok : StubInit → ℕ × ℕ → Bool
preset_ok s p =
    leb (p.0 + 4) s.size && (p.0 % 4 == 0 && read (λ t addr val. val) (stub_of s) p.0 4 == p.1)

abbrev presets_ok : StubInit → List (ℕ × ℕ) → Bool
presets_ok s [] = true
presets_ok s (p ∷ rest) = preset_ok s p && presets_ok s rest

abbrev stubs_ok : List StubInit → Bool
stubs_ok [] = true
stubs_ok (s ∷ rest) = presets_ok s s.presets && stubs_ok rest

machine-ok : stubs_ok stubs ≡ true
unfolding read stub_of apply_presets stub_set stub_selfclear
machine-ok = refl

presets_ok-get :
    (s : StubInit) (ps : List (ℕ × ℕ)) (j : ℕ)
    → presets_ok s ps ≡ true
    → j < length ps
    → preset_ok s (get_or ps j (0, 0)) ≡ true
presets_ok-get s [] j e h = ground arith
presets_ok-get s (p ∷ rest) zero e h = (and_both (preset_ok s p) (presets_ok s rest) e).0
presets_ok-get s (p ∷ rest) (suc j) e h =
    presets_ok-get s rest j (and_both (preset_ok s p) (presets_ok s rest) e).1 (omega arith)

abbrev pub no_stub : StubInit
no_stub = make_stub 0 0

stubs_ok-get :
    (ss : List StubInit) (i : ℕ)
    → stubs_ok ss ≡ true
    → i < length ss
    → presets_ok (get_or ss i no_stub) (get_or ss i no_stub).presets ≡ true
stubs_ok-get [] i e h = ground arith
stubs_ok-get (s ∷ rest) zero e h = (and_both (presets_ok s s.presets) (stubs_ok rest) e).0
stubs_ok-get (s ∷ rest) (suc i) e h =
    stubs_ok-get rest i (and_both (presets_ok s s.presets) (stubs_ok rest) e).1 (omega arith)

preset_ok-found :
    (s : StubInit) (p : ℕ × ℕ) (fixup : RegStub → ℕ → ℕ → ℕ)
    → preset_ok s p ≡ true
    → (p.0 + 4 ≤ s.size)
      × (p.0 % 4 ≡ 0)
      × (read fixup (stub_of s) p.0 4 ≡ fixup (stub_of s) p.0 p.1)
unfolding read
preset_ok-found s p fixup e =
    let (inside, more) = and_both (leb (p.0 + 4) s.size) _ e in
    let (whole, found) = and_both (p.0 % 4 == 0) _ more in
    (leb→le _ _ inside, (==_iff _ 0).0 whole, ap (fixup (stub_of s) p.0) ((==_iff _ p.1).0 found))

-- Each call of `stub_set` in the machine, for the stub with the number `i` and its preset with the
-- number `j`: the word that is written lies inside the registers of the stub, and a read of it when
-- the machine starts finds the value, as the stub's fixup changes it.
pub presets_found :
    (i j : ℕ) (fixup : RegStub → ℕ → ℕ → ℕ)
    → i < length stubs
    → j < length (get_or stubs i no_stub).presets
    → let s = get_or stubs i no_stub in
      let p = get_or s.presets j (0, 0) in
      (p.0 + 4 ≤ s.size)
      × (p.0 % 4 ≡ 0)
      × (read fixup (stub_of s) p.0 4 ≡ fixup (stub_of s) p.0 p.1)
presets_found i j fixup h k =
    let s = get_or stubs i no_stub in
    preset_ok-found s (get_or s.presets j (0, 0)) fixup
      (presets_ok-get s s.presets j (stubs_ok-get stubs i machine-ok h) k)
