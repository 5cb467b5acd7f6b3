-- ===== src/Prelude/Fields.antt =====
-- Words put together from fields: `|` of parts that do not overlap, and the masks of pages and words.
use Prim.Native.Nat.{ℕ, zero, suc, ◌+◌, ◌-◌, ◌*◌, ◌/◌, ◌^◌, ◌≤◌, ◌<◌}
use Prim.Native.Nat.{bit_and, bit_or}
use mathlib.Core.Path.{◌≡◌, refl, sym, ap, ◌∙◌}
use native.Mathlib.Nat.{pow-suc, div-div-eq-div-mul, mul_comm}
use native.Mathlib.Omega.{arith}
use garmin_gpsmap_emu.Prelude.Bits.{bit_and_mask, two_pow_suc_mul}
use garmin_gpsmap_emu.Prelude.Bits.Step.{bit_or_step, bit_and_step}

bit_or-zero_right : (n a : ℕ) → a ≤ n → bit_or a 0 ≡ a
bit_or-zero_right n zero h = refl
bit_or-zero_right zero (suc a) h = absurd (omega arith)
bit_or-zero_right (suc n) (suc a) h =
    omega (arith, bit_or_step (suc a) 0, bit_or-zero_right n (suc a / 2) (omega arith))

-- `|` of a shifted field and a field that fits below it is their sum.
pub bit_or-disjoint : (k q r : ℕ) → r < 2 ^ k → bit_or (q * 2 ^ k) r ≡ q * 2 ^ k + r
bit_or-disjoint zero q r h =
    let e : r ≡ 0 = omega arith in
    let f : q * 2 ^ 0 ≡ q = omega arith in
    rw (e, f, bit_or-zero_right q q (omega arith)) (omega arith)
bit_or-disjoint (suc k) q r h = ground (
  arith,
  bit_or_step (q * 2 ^ suc k) r,
  two_pow_suc_mul q k,
  pow-suc 2 k,
  bit_or-disjoint k q (r / 2) (omega (arith, pow-suc 2 k)),
)

bit_or-zero_left : (n b : ℕ) → b ≤ n → bit_or 0 b ≡ b
bit_or-zero_left n zero h = refl
bit_or-zero_left zero (suc b) h = absurd (omega arith)
bit_or-zero_left (suc n) (suc b) h =
    omega (arith, bit_or_step 0 (suc b), bit_or-zero_left n (suc b / 2) (omega arith))

pub bit_or-disjoint_low : (k q r : ℕ) → r < 2 ^ k → bit_or r (q * 2 ^ k) ≡ q * 2 ^ k + r
bit_or-disjoint_low zero q r h =
    let e : r ≡ 0 = omega arith in
    let f : q * 2 ^ 0 ≡ q = omega arith in
    rw (e, f, bit_or-zero_left q q (omega arith)) (omega arith)
bit_or-disjoint_low (suc k) q r h = ground (
  arith,
  pow-suc 2 k,
  bit_or_step r (q * 2 ^ suc k),
  two_pow_suc_mul q k,
  bit_or-disjoint_low k q (r / 2) (omega (arith, pow-suc 2 k)),
)

-- `(a & ~3) >> 2` is the index of the word at `a`.
pub bit_and_word : (a : ℕ) → a < 2 ^ 64 → bit_and a (2 ^ 64 - 4) / 4 ≡ a / 4
bit_and_word a h = omega (
  arith,
  bit_and_step a (2 ^ 64 - 4),
  bit_and_step (a / 2) (2 ^ 63 - 2),
  bit_and_mask 62 (a / 2 / 2),
)

halves : (a k : ℕ) → a / 2 / 2 ^ k ≡ a / 2 ^ suc k
halves a k =
    div-div-eq-div-mul a 2 (2 ^ k) ∙ ap (λ (m : ℕ). a / m) (sym (pow-suc 2 k ∙ mul_comm (2 ^ k) 2))

-- A mask without its `k` low digits.
pub bit_and_split : (k a b : ℕ) → bit_and a (b * 2 ^ k) ≡ bit_and (a / 2 ^ k) b * 2 ^ k
bit_and_split zero a b =
    let e : b * 2 ^ 0 ≡ b = omega arith in
    let f : a / 2 ^ 0 ≡ a = omega arith in rw (e, f) (omega arith)
bit_and_split (suc k) a b = omega (
  arith,
  bit_and_step a (b * 2 ^ suc k),
  two_pow_suc_mul b k,
  two_pow_suc_mul (bit_and (a / 2 ^ suc k) b) k,
  bit_and_split k (a / 2) b,
  ap (λ (m : ℕ). bit_and (a / 2) m)
      (let e : b * 2 ^ suc k / 2 ≡ b * 2 ^ k = omega (arith, two_pow_suc_mul b k) in e),
  ap (λ (x : ℕ). bit_and x b * 2 ^ k) (halves a k),
)

-- `a & ~0xfff` is the page of `a`.
pub bit_and_page : (a : ℕ) → a < 2 ^ 32 → bit_and a (2 ^ 32 - 1 - 0xfff) ≡ a / 4096 * 4096
bit_and_page a h = omega (arith, bit_and_split 12 a (2 ^ 20 - 1), bit_and_mask 20 (a / 4096))

bit_or-le : (n a b : ℕ) → a ≤ n → a ≤ bit_or a b
bit_or-le n zero b h = omega arith
bit_or-le zero (suc a) b h = absurd (omega arith)
bit_or-le (suc n) (suc a) b h =
    omega (arith, bit_or_step (suc a) b, bit_or-le n (suc a / 2) (b / 2) (omega arith))

pub bit_or-le_left : (a b : ℕ) → a ≤ bit_or a b
bit_or-le_left a b = bit_or-le a a b (omega arith)

bit_or-le_both : (n a b : ℕ) → b ≤ n → b ≤ bit_or a b
bit_or-le_both n a zero h = omega arith
bit_or-le_both zero a (suc b) h = absurd (omega arith)
bit_or-le_both (suc n) a (suc b) h =
    omega (arith, bit_or_step a (suc b), bit_or-le_both n (a / 2) (suc b / 2) (omega arith))

pub bit_or-le_right : (a b : ℕ) → b ≤ bit_or a b
bit_or-le_right a b = bit_or-le_both b a b (omega arith)

pub bit_or-zero_zero : (a b : ℕ) → a ≡ 0 → b ≡ 0 → bit_or a b ≡ 0
bit_or-zero_zero a b p q = rw (p, q) refl
