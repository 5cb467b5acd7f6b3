-- ===== src/Gl/Placed.antt =====
-- The bytes of a trampoline, wherever it is written.
use garmin_gpsmap_emu.Prelude.{ℕ, ◌+◌, ◌*◌, ◌<◌}
use garmin_gpsmap_emu.Prelude.{bit_and, bit_or, shl, shr}
use garmin_gpsmap_emu.Prelude.{◌≡◌, refl, arith}
use garmin_gpsmap_emu.Prelude.{Bool, true, false, if◌then◌else◌}
use native.Mathlib.Decide.{dec_lt}
use garmin_gpsmap_emu.Gl.{mmio_base, result_off, put16, enc_mov_imm16, enc_trampoline}

-- The bytes of a trampoline alone.
unfoldable pub code : ℕ → ℕ → ℕ
code slot = enc_trampoline (λ k. 0) 0 slot

-- Below `n`, the bytes of `p` from `place` on are those of `q`.
unfoldable pub Holds : ℕ → ℕ → (ℕ → ℕ) → (ℕ → ℕ) → Type 0
Holds n place p q = (k : ℕ) → k < n → p (place + k) ≡ q k

put16-Holds :
    (n m place : ℕ) (p q : ℕ → ℕ) (a v : ℕ)
    → m ≡ n + 2
    → a ≡ place + n
    → Holds n place p q
    → Holds m place (put16 p a v) (put16 q n v)
unfolding Holds put16
put16-Holds n m place p q a v l e h k small = elim (dec_lt k n) [
  | yes b ↦ ground (arith, h k b)
  | no b ↦ ground arith
]

mov-Holds :
    (n m place : ℕ) (p q : ℕ → ℕ) (a : ℕ) (top : Bool) (rd imm : ℕ)
    → m ≡ n + 4
    → a ≡ place + n
    → Holds n place p q
    → Holds m place (enc_mov_imm16 p a top rd imm) (enc_mov_imm16 q n top rd imm)
unfolding enc_mov_imm16
mov-Holds n m place p q a top rd imm l e h =
    let first =
      bit_or (bit_or (if top then 0xf2c0 else 0xf240) (shl (bit_and (shr imm 11) 1) 10))
        (shr imm 12) in
    let second = bit_or (bit_or (shl (bit_and (shr imm 8) 7) 12) (shl rd 8)) (bit_and imm 0xff) in
    put16-Holds (n + 2) m place (put16 p a first) (put16 q n first) (a + 2) second (omega arith)
      (omega arith) (put16-Holds n (n + 2) place p q a first refl e h)

-- A trampoline written at `place` is there.
pub trampoline-Holds :
    (memory : ℕ → ℕ) (place slot : ℕ)
    → Holds 18 place (enc_trampoline memory place slot) (code slot)
unfolding code enc_trampoline Holds
trampoline-Holds memory place slot = put16-Holds 16 18 place _ _ (place + 16) 0x4770 refl refl (
    put16-Holds 14 16 place _ _ (place + 14) (bit_or 0x0000 result_off) refl refl (
      put16-Holds 12 14 place _ _ (place + 12) 0xf8dc refl refl (
        put16-Holds 10 12 place _ _ (place + 10) (bit_or 0xc000 (slot * 4)) refl refl (
          put16-Holds 8 10 place _ _ (place + 8) 0xf8cc refl refl (
            mov-Holds 4 8 place _ _ (place + 4) true 12 (shr mmio_base 16) refl refl (
              mov-Holds 0 4 place memory (λ k. 0) place false 12 (bit_and mmio_base 0xffff) refl
                (omega arith) (λ k h. absurd (omega arith))))))))
