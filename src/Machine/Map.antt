-- ===== src/Machine/Map.antt =====
-- The memory map and the interrupt lines of qemu/hw/arm/garmin_gpsmap.c as a whole: who answers.
use garmin_gpsmap_emu.Prelude.{and_both}
use garmin_gpsmap_emu.Prelude.{arith, ℕ, ◌+◌, ◌≤◌, ◌≡◌, refl, ◌⊎◌, inr}
use garmin_gpsmap_emu.Prelude.{Bool, true, not, ◌&&◌, ◌||◌, if◌then◌else◌, ◌==◌, ltb, leb}
use garmin_gpsmap_emu.Prelude.{List, [], ◌∷◌, ◌++◌, map}
use garmin_gpsmap_emu.Machine.{Region, region, Sizes, memories, catch_all, timers, TimerInit, Wired}
use garmin_gpsmap_emu.Machine.{uarts, gpios, i2cs, hsmmcs, mailbox, dispc, sync32k, ducati_l2ram}
use garmin_gpsmap_emu.Machine.{sdma, ext_uarts, lan9118, gl_window, page}
use garmin_gpsmap_emu.Machine.Stubs.{StubInit, stubs}

-- The devices of fixed size.
abbrev pub fixed_regions : List Region
fixed_regions =
    catch_all
    ++ map {A = StubInit} (λ s. region s.base s.size) stubs
    ++ map {A = TimerInit} (λ t. region t.base 0x1000) timers
    ++ map page uarts
    ++ map {A = Wired × ℕ} (λ g. page g.0) gpios
    ++ map page i2cs
    ++ map {A = Wired × Bool} (λ c. page c.0) hsmmcs
    ++ (page mailbox
        ∷ page dispc
        ∷ region sync32k 0x1000
        ∷ ducati_l2ram
        ∷ region sdma.0 0x1000
        ∷ gl_window
        ∷ [])

-- The devices whose sizes are QEMU's.
abbrev pub sized_regions : Sizes → List Region
sized_regions z =
    region 0x48240000 z.mpcore
    ∷ region 0x48242000 z.l2x0
    ∷ (lan9118 z.lan9118).0
    ∷ (memories z.ram_size ++ map {A = Region × ℕ} (λ u. u.0) (ext_uarts z.serial))

-- All regions of the machine.
abbrev pub regions : Sizes → List Region
regions z = sized_regions z ++ fixed_regions

abbrev pub contains : Region → ℕ → Bool
contains r a = leb r.base a && ltb a (r.base + r.size)

abbrev apart : Region → Region → Bool
apart r s =
    not (r.priority == s.priority) || leb (r.base + r.size) s.base || leb (s.base + s.size) r.base

abbrev apart_all : Region → List Region → Bool
apart_all r [] = true
apart_all r (s ∷ rest) = apart r s && apart_all r rest

abbrev all_apart : List Region → Bool
all_apart [] = true
all_apart (r ∷ rest) = apart_all r rest && all_apart rest

-- Room for the devices whose sizes are QEMU's.
abbrev pub most : Sizes
most = record {
  ram_size = 0x80000000;
  mpcore = 0x2000;
  l2x0 = 0x1000;
  lan9118 = 0x4000000;
  serial = 0x100;
}

-- The devices of QEMU fit: the registers of the CPUs' own devices, the network controller within its
-- chip select, a UART below its neighbour, and the memory below the end of the address space.
abbrev pub HasRoom : Sizes → Type 0
HasRoom z =
    (z.ram_size ≤ most.ram_size)
    × (z.mpcore ≤ most.mpcore)
    × (z.l2x0 ≤ most.l2x0)
    × (z.lan9118 ≤ most.lan9118)
    × (z.serial ≤ most.serial)

most-apart : all_apart (regions most) ≡ true
most-apart = refl

-- Which regions of a priority answer at an address: how many.
abbrev pub answers_at : ℕ → ℕ → Region → ℕ
answers_at p a r = if r.priority == p && contains r a then 1 else 0

unfoldable pub owners : ℕ → ℕ → List Region → ℕ
owners p a [] = 0
owners p a (r ∷ rest) = answers_at p a r + owners p a rest

answers-bool : (p a : ℕ) (r : Region) → answers_at p a r ≡ 0 ⊎ answers_at p a r ≡ 1
answers-bool p a r = ground arith

answers_mono :
    (p a base s t q : ℕ)
    → s ≤ t
    → answers_at p a (record { base = base; size = s; priority = q })
      ≤ answers_at p a (record { base = base; size = t; priority = q })
answers_mono p a base s t q h = ground arith

apart-alone : (p a : ℕ) (r s : Region) → apart r s ≡ true → answers_at p a r + answers_at p a s ≤ 1
apart-alone p a r s e = ground arith

apart_all-alone :
    (p a : ℕ) (r : Region) (rs : List Region)
    → apart_all r rs ≡ true
    → answers_at p a r ≡ 0 ⊎ owners p a rs ≡ 0
unfolding owners
apart_all-alone p a r [] e = inr refl
apart_all-alone p a r (s ∷ rest) e =
    let (first, later) = and_both (apart r s) (apart_all r rest) e in
    let alone = apart-alone p a r s first in
    let others = apart_all-alone p a r rest later in ground arith

all_apart-alone : (p a : ℕ) (rs : List Region) → all_apart rs ≡ true → owners p a rs ≤ 1
unfolding owners
all_apart-alone p a [] e = omega arith
all_apart-alone p a (r ∷ rest) e =
    let (first, later) = and_both (apart_all r rest) (all_apart rest) e in
    let alone = apart_all-alone p a r rest first in
    let others = all_apart-alone p a rest later in let one = answers-bool p a r in ground arith

owners-append :
    (p a : ℕ) (xs ys : List Region) → owners p a (xs ++ ys) ≡ owners p a xs + owners p a ys
unfolding owners
owners-append p a [] ys = omega arith
owners-append p a (r ∷ xs) ys = let rest = owners-append p a xs ys in rw rest (omega arith)

-- A smaller region answers at fewer addresses.
owners_mono :
    (p a : ℕ) (z : Sizes)
    → HasRoom z
    → owners p a (sized_regions z) ≤ owners p a (sized_regions most)
unfolding owners
owners_mono p a z (ram, mpcore, l2x0, lan, serial) =
    let m1 = answers_mono p a 0x48240000 z.mpcore most.mpcore 1000 mpcore in
    let m2 = answers_mono p a 0x48242000 z.l2x0 most.l2x0 1000 l2x0 in
    let m3 = answers_mono p a 0x0c000000 z.lan9118 most.lan9118 1000 lan in
    let m4 = answers_mono p a 0x80000000 z.ram_size most.ram_size 1000 ram in
    let m5 = answers_mono p a 0x10000000 z.serial most.serial 1001 serial in
    let m6 = answers_mono p a 0x10000100 z.serial most.serial 1001 serial in omega arith

-- Where QEMU's own devices are no larger than the room that the map has for them: at every address
-- at most one region of each priority answers, so that the order in which QEMU is told of them does
-- not matter.
pub one_owner : (z : Sizes) (p a : ℕ) → HasRoom z → owners p a (regions z) ≤ 1
one_owner z p a h =
    let all = all_apart-alone p a (regions most) most-apart in
    let less = owners_mono p a z h in
    let here = owners-append p a (sized_regions z) fixed_regions in
    let there = owners-append p a (sized_regions most) fixed_regions in omega arith
