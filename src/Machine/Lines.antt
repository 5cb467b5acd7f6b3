-- ===== src/Machine/Lines.antt =====
-- The interrupt lines of qemu/hw/arm/garmin_gpsmap.c as a whole.
use garmin_gpsmap_emu.Prelude.{
  and_both, arith, ℕ, ◌+◌, ◌≤◌, ◌<◌, ◌≡◌, refl, ap, Bool-cases, ==_iff, inl, inr,
}
use garmin_gpsmap_emu.Prelude.{Bool, true, not, ◌&&◌, if◌then◌else◌, ◌==◌, ltb}
use garmin_gpsmap_emu.Prelude.{List, [], ◌∷◌, ◌++◌, map}
use garmin_gpsmap_emu.Machine.{TimerInit, Wired, timers, uarts, gpios, i2cs, hsmmcs, mailbox, dispc}
use garmin_gpsmap_emu.Machine.{sdma, sgx_irq, lan9118}

-- The interrupt lines: of the timers, the UARTs, the banks of pins, the I2C and card controllers, the
-- mailbox, the display controller, the graphics processor, the network and the system DMA.
abbrev pub lines : List ℕ
lines =
    map {A = TimerInit} (λ t. t.irq) timers
    ++ map {A = Wired} (λ u. u.irq) uarts
    ++ map {A = Wired × ℕ} (λ g. (g.0).irq) gpios
    ++ map {A = Wired} (λ c. c.irq) i2cs
    ++ map {A = Wired × Bool} (λ c. (c.0).irq) hsmmcs
    ++ (mailbox.irq ∷ dispc.irq ∷ sgx_irq ∷ (lan9118 0).1 ∷ sdma.1)

-- How many devices drive a line.
unfoldable pub drivers : ℕ → List ℕ → ℕ
drivers line [] = 0
drivers line (n ∷ rest) = (if n == line then 1 else 0) + drivers line rest

-- The lines that the interrupt controller is made with.
abbrev pub num_spi : ℕ
num_spi = 128

abbrev fresh : ℕ → List ℕ → Bool
fresh n [] = ltb n num_spi
fresh n (m ∷ rest) = not (n == m) && fresh n rest

abbrev distinct : List ℕ → Bool
distinct [] = true
distinct (n ∷ rest) = fresh n rest && distinct rest

fresh-drivers : (n : ℕ) (ls : List ℕ) → fresh n ls ≡ true → (n < num_spi) × (drivers n ls ≡ 0)
unfolding drivers
fresh-drivers n [] e = (ground arith, refl)
fresh-drivers n (m ∷ rest) e =
    let (other, later) = and_both (not (n == m)) (fresh n rest) e in
    let (low, none) = fresh-drivers n rest later in (low, ground arith)

distinct-drivers :
    (line : ℕ) (ls : List ℕ)
    → distinct ls ≡ true
    → drivers line ls ≤ (if ltb line num_spi then 1 else 0)
unfolding drivers
distinct-drivers line [] e = omega arith
distinct-drivers line (n ∷ rest) e =
    let (new, later) = and_both (fresh n rest) (distinct rest) e in
    let (low, none) = fresh-drivers n rest new in
    let others = distinct-drivers line rest later in
    elim (Bool-cases (n == line)) [
      | inl same ↦
          let same_drivers = ap (λ m. drivers m rest) ((==_iff n line).0 same) in
          let low_line = ap (λ m. ltb m num_spi) ((==_iff n line).0 same) in ground arith
      | inr differ ↦ ground arith
    ]

lines-distinct : distinct lines ≡ true
lines-distinct = refl

-- Every interrupt line of the interrupt controller has at most one device of the machine that drives
-- it, and no device drives a line that there is not.
one_driver : (line : ℕ) → drivers line lines ≤ (if ltb line num_spi then 1 else 0)
one_driver line = distinct-drivers line lines lines-distinct
