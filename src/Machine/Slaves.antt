-- ===== src/Machine/Slaves.antt =====
-- The slaves on the I2C buses of qemu/hw/arm/garmin_gpsmap.c.
use garmin_gpsmap_emu.Prelude.{
  arith, ℕ, zero, suc, ◌+◌, ◌≤◌, ◌<◌, ◌≡◌, ap, ◌∙◌, ==_iff, Bool-cases, inl, inr,
}
use garmin_gpsmap_emu.Prelude.{Bool, true, not, ◌&&◌, ◌||◌, if◌then◌else◌, ◌==◌, ltb, leb}
use garmin_gpsmap_emu.Prelude.{List, [], ◌∷◌, ◌++◌}

pub data Slave : Type 0 where
  regfile : Slave
  egalax : Slave

-- The addresses that the loop leaves to the devices that follow it.
unfoldable pub skipped : ℕ → ℕ → Bool
skipped b a = (b == 0 && leb 0x48 a && leb a 0x4b) || (b == 3 && a == 0x04)

-- The loop over `n` addresses from `a` on.
unfoldable pub generic_slaves : ℕ → ℕ → ℕ → List (ℕ × Slave)
generic_slaves b a zero = []
generic_slaves b a (suc n) =
    let rest = generic_slaves b (suc a) n in if skipped b a then rest else (a, regfile) ∷ rest

-- The devices that follow: the touch controller and the PMIC.
unfoldable pub named_slaves : ℕ → List (ℕ × Slave)
named_slaves b =
    if b == 3
    then (0x04, egalax) ∷ []
    else if b == 0
    then (0x48, regfile) ∷ (0x49, regfile) ∷ (0x4a, regfile) ∷ (0x4b, regfile) ∷ []
    else []

-- The slaves of a bus by address.
unfoldable pub slaves : ℕ → List (ℕ × Slave)
slaves b = generic_slaves b 0x02 0x76 ++ named_slaves b

-- How many slaves answer to an address.
unfoldable pub responders : ℕ → List (ℕ × Slave) → ℕ
responders a [] = 0
responders a ((at, slave) ∷ rest) = (if at == a then 1 else 0) + responders a rest

responders-append :
    (a : ℕ) (xs ys : List (ℕ × Slave)) → responders a (xs ++ ys) ≡ responders a xs + responders a ys
unfolding responders
responders-append a [] ys = omega arith
responders-append a (x ∷ xs) ys = let rest = responders-append a xs ys in rw rest (omega arith)

generic_slaves-once :
    (b n lo a : ℕ)
    → responders a (generic_slaves b lo n)
      ≡ (if leb lo a && ltb a (lo + n) && not (skipped b a) then 1 else 0)
unfolding responders generic_slaves
generic_slaves-once b zero lo a = ground arith
generic_slaves-once b (suc n) lo a =
    let rest = generic_slaves-once b n (suc lo) a in
    elim (Bool-cases (lo == a)) [
      | inl here ↦
          let at = ap (skipped b) ((==_iff lo a).0 here) in
          elim (Bool-cases (skipped b lo)) [
            | inl skip ↦ rw skip (ground arith)
            | inr keep ↦ rw keep (ground arith)
          ]
      | inr elsewhere ↦ elim (Bool-cases (skipped b lo)) [
        | inl skip ↦ rw skip (ground arith)
        | inr keep ↦ rw keep (ground arith)
      ]
    ]

named_slaves-once : (b a : ℕ) → responders a (named_slaves b) ≡ (if skipped b a then 1 else 0)
unfolding responders named_slaves skipped
named_slaves-once b a = elim (Bool-cases (b == 3)) [
  | inl last ↦ rw last (ground arith)
  | inr other ↦ elim (Bool-cases (b == 0)) [
    | inl first ↦ rw (other, first) (ground arith)
    | inr between ↦ rw (other, between) (ground arith)
  ]
]

skipped-probed : (b a : ℕ) → skipped b a ≡ true → (0x02 ≤ a) × (a < 0x78)
unfolding skipped
skipped-probed b a e = ground arith

-- On every bus `b` each address from 0x02 to 0x77 has exactly one slave, and no other address has
-- one: a probe of 0x00, 0x01 or 0x78 to 0x7f goes unanswered.
pub one_slave : (b a : ℕ) → responders a (slaves b) ≡ (if leb 0x02 a && ltb a 0x78 then 1 else 0)
unfolding slaves
one_slave b a =
    let fill = generic_slaves-once b 0x76 0x02 a in
    let named = named_slaves-once b a in
    let probed = skipped-probed b a in
    responders-append a (generic_slaves b 0x02 0x76) (named_slaves b)
    ∙ (rw (fill, named)
        (elim (Bool-cases (skipped b a)) [
          | inl skip ↦ let range = probed skip in rw skip (ground arith)
          | inr keep ↦ rw keep (ground arith)
        ]))
