-- ===== src/Prelude/Bits.antt =====
-- Words bit by bit: digit `k` of a word is the number `bit a k`, 0 or 1, so that `&` is `min`,
-- `|` is `max` and `~` is `1 - x`, which `omega` reads.
pub mod Step
use Prim.Native.Nat.{ℕ, zero, suc, ◌+◌, ◌-◌, ◌*◌, ◌/◌, ◌%◌, ◌^◌, ◌≤◌, ◌<◌, min, max}
use Prim.Native.Nat.{bit_and, bit_or, bit_and-bitwise}
use mathlib.Core.Path.{◌≡◌, refl, sym, ap, ◌∙◌}
use mathlib.Core.Logic.{◌≢◌}
use native.Mathlib.Nat.{pow-suc, one-le-pow, div-div-eq-div-mul, mul_comm}
use native.Mathlib.Omega.{arith}
use native.Mathlib.Decide.{ℕ_discrete, dec_lt}
use garmin_gpsmap_emu.Prelude.Tests.{if◌then◌else◌, ◌==◌}
use garmin_gpsmap_emu.Prelude.Word.{has}
use Step.{bit_or_step, bit_and_step}

unfoldable pub bit : ℕ → ℕ → ℕ
bit a zero = a % 2
bit a (suc k) = bit (a / 2) k

pub bit_le : (a k : ℕ) → bit a k ≤ 1
unfolding bit
bit_le a zero = omega arith
bit_le a (suc k) = bit_le (a / 2) k

pub bit-and : (a b k : ℕ) → bit (bit_and a b) k ≡ min (bit a k) (bit b k)
unfolding bit
bit-and a b zero = omega (arith, bit_and_step a b)
bit-and a b (suc k) =
    let e : bit_and a b / 2 ≡ bit_and (a / 2) (b / 2) = omega (arith, bit_and_step a b) in
    rw e (bit-and (a / 2) (b / 2) k)

pub bit-or : (a b k : ℕ) → bit (bit_or a b) k ≡ max (bit a k) (bit b k)
unfolding bit
bit-or a b zero = omega (arith, bit_or_step a b)
bit-or a b (suc k) =
    let e : bit_or a b / 2 ≡ bit_or (a / 2) (b / 2) = omega (arith, bit_or_step a b) in
    rw e (bit-or (a / 2) (b / 2) k)

bit-zero : (k : ℕ) → bit 0 k ≡ 0
unfolding bit
bit-zero zero = refl
bit-zero (suc k) = bit-zero k

-- `~x` on `n` bits.
pub bit-complement : (n k x : ℕ) → k < n → x < 2 ^ n → bit (2 ^ n - 1 - x) k ≡ 1 - bit x k
unfolding bit
bit-complement zero k x h fits = absurd (omega arith)
bit-complement (suc n) zero x h fits = omega (arith, pow-suc 2 n, one-le-pow n 2)
bit-complement (suc n) (suc k) x h fits =
    let e : (2 ^ suc n - 1 - x) / 2 ≡ 2 ^ n - 1 - x / 2 =
      omega (arith, pow-suc 2 n, one-le-pow n 2) in
    rw e (bit-complement n k (x / 2) (omega arith) (omega (arith, pow-suc 2 n)))

-- A word of `n` bits has no digit from `n` on.
pub bit-eq_zero : (n k a : ℕ) → a < 2 ^ n → n ≤ k → bit a k ≡ 0
unfolding bit
bit-eq_zero zero k a fits h = rw (let e : a ≡ 0 = omega arith in e) (bit-zero k)
bit-eq_zero (suc n) zero a fits h = absurd (omega arith)
bit-eq_zero (suc n) (suc k) a fits h =
    bit-eq_zero n k (a / 2) (omega (arith, pow-suc 2 n)) (omega arith)

pub two_pow_suc_mul : (q n : ℕ) → q * 2 ^ suc n ≡ 2 * (q * 2 ^ n)
two_pow_suc_mul q n = omega (arith, ap (λ (t : ℕ). q * t) (pow-suc 2 n))

-- Digits below `n` do not see what stands above them.
bit-add_mul : (n k q r : ℕ) → k < n → bit (q * 2 ^ n + r) k ≡ bit r k
unfolding bit
bit-add_mul zero k q r h = absurd (omega arith)
bit-add_mul (suc n) zero q r h = omega (arith, two_pow_suc_mul q n)
bit-add_mul (suc n) (suc k) q r h =
    let e : (q * 2 ^ suc n + r) / 2 ≡ q * 2 ^ n + r / 2 = omega (arith, two_pow_suc_mul q n) in
    rw e (bit-add_mul n k q (r / 2) (omega arith))

-- The digit of a cast is the digit of the number.
pub bit-mod : (n k a : ℕ) → k < n → bit (a % 2 ^ n) k ≡ bit a k
bit-mod n k a h =
    sym (bit-add_mul n k (a / 2 ^ n) (a % 2 ^ n) h)
    ∙ ap (λ (x : ℕ). bit x k) (let e : a / 2 ^ n * 2 ^ n + a % 2 ^ n ≡ a = grind arith in e)

-- Two words of `n` bits with the same digits are the same word.
pub eq_of_bits : (n a b : ℕ) → a < 2 ^ n → b < 2 ^ n → ((k : ℕ) → bit a k ≡ bit b k) → a ≡ b
unfolding bit
eq_of_bits zero a b p q h = omega arith
eq_of_bits (suc n) a b p q h =
    let low : a % 2 ≡ b % 2 = h 0 in
    omega (
      arith,
      eq_of_bits n (a / 2) (b / 2) (omega (arith, pow-suc 2 n)) (omega (arith, pow-suc 2 n))
          (λ k. h (suc k)),
    )

-- A word that is not zero has a digit that is one.
pub bit_of_ne_zero : (n a : ℕ) → a < 2 ^ n → a ≢ 0 → (k : ℕ) × (k < n) × (bit a k ≡ 1)
unfolding bit
bit_of_ne_zero zero a fits h = absurd (omega arith)
bit_of_ne_zero (suc n) a fits h = elim (ℕ_discrete (a % 2) 1) [
  | yes p ↦ (0, omega arith, p)
  | no p ↦
      let r = bit_of_ne_zero n (a / 2) (omega (arith, pow-suc 2 n)) (omega arith) in
      (suc r.0, omega (arith, r.1), r.2)
]

pub ne_zero_of_bit : (a k : ℕ) → bit a k ≡ 1 → a ≢ 0
ne_zero_of_bit a k h e = omega (arith, bit-zero k, ap (λ (x : ℕ). bit x k) e)

bit_and-zero_right : (n a : ℕ) → a ≤ n → bit_and a 0 ≡ 0
bit_and-zero_right n zero h = refl
bit_and-zero_right zero (suc a) h = absurd (omega arith)
bit_and-zero_right (suc n) (suc a) h =
    omega (arith, bit_and_step (suc a) 0, bit_and-zero_right n (suc a / 2) (omega arith))

pub bit_and-zero : (a : ℕ) → bit_and a 0 ≡ 0
bit_and-zero a = bit_and-zero_right a a (omega arith)

-- A flag: the mask `1 << k` picks digit `k`.
pub bit_and_flag : (k a : ℕ) → bit_and a (2 ^ k) ≡ bit a k * 2 ^ k
unfolding bit
bit_and_flag zero a = omega (arith, bit_and_step a 1, bit_and-zero (a / 2))
bit_and_flag (suc k) a = omega (
  arith,
  bit_and_step a (2 ^ suc k),
  pow-suc 2 k,
  two_pow_suc_mul (bit (a / 2) k) k,
  ap (λ (m : ℕ). bit_and (a / 2) m)
      (let e : 2 ^ suc k / 2 ≡ 2 ^ k = omega (arith, pow-suc 2 k) in e),
  bit_and_flag k (a / 2),
)

bit_and_low : (k q r : ℕ) → r < 2 ^ k → bit_and (q * 2 ^ k + r) (2 ^ k - 1) ≡ r
bit_and_low zero q r fits = rw bit_and-zero (omega arith)
bit_and_low (suc k) q r fits = ground (
  arith,
  bit_and_step (q * 2 ^ suc k + r) (2 ^ suc k - 1),
  two_pow_suc_mul q k,
  pow-suc 2 k,
  bit_and_low k q (r / 2) (omega (arith, pow-suc 2 k)),
)

-- A mask of `k` low bits is the remainder by `2 ^ k`.
pub bit_and_mask : (k a : ℕ) → bit_and a (2 ^ k - 1) ≡ a % 2 ^ k
bit_and_mask k a = ground (arith, one-le-pow k 2, bit_and_low k (a / 2 ^ k) (a % 2 ^ k))

pub bit_and-le : (n a b : ℕ) → a ≤ n → bit_and a b ≤ a
bit_and-le n zero b h = omega (arith, bit_and-bitwise 0 b)
bit_and-le zero (suc a) b h = absurd (omega arith)
bit_and-le (suc n) (suc a) b h =
    omega (arith, bit_and_step (suc a) b, bit_and-le n (suc a / 2) (b / 2) (omega arith))

pub bit_and-le_left : (a b : ℕ) → bit_and a b ≤ a
bit_and-le_left a b = bit_and-le a a b (omega arith)

zero_or : (a b : ℕ) → a ≡ 0 → b ≡ 0 → bit_or a b < 1
zero_or a b p q = rw (p, q) (omega arith)

pub bit_or-lt : (n a b : ℕ) → a < 2 ^ n → b < 2 ^ n → bit_or a b < 2 ^ n
bit_or-lt zero a b p q = zero_or a b (omega arith) (omega arith)
bit_or-lt (suc n) a b p q = omega (
  arith,
  pow-suc 2 n,
  bit_or_step a b,
  bit_or-lt n (a / 2) (b / 2) (omega (arith, pow-suc 2 n)) (omega (arith, pow-suc 2 n)),
)

-- `~x` of a 32-bit and of a 64-bit word.
pub bit-not32 : (x k : ℕ) → k < 32 → bit (2 ^ 32 - 1 - x % 2 ^ 32) k ≡ 1 - bit x k
bit-not32 x k h = omega (arith, bit-complement 32 k (x % 2 ^ 32) h (omega arith), bit-mod 32 k x h)

pub bit-not64 : (x k : ℕ) → k < 64 → bit (2 ^ 64 - 1 - x % 2 ^ 64) k ≡ 1 - bit x k
bit-not64 x k h = omega (arith, bit-complement 64 k (x % 2 ^ 64) h (omega arith), bit-mod 64 k x h)

-- What `x &= ~v` leaves of a 32-bit word.
pub bit-clear :
    (x v k : ℕ)
    → x < 2 ^ 32
    → bit (bit_and x (2 ^ 64 - 1 - v % 2 ^ 64)) k ≡ min (bit x k) (1 - bit v k)
bit-clear x v k h = elim (dec_lt k 64) [
  | yes p ↦ omega (arith, bit-and x (2 ^ 64 - 1 - v % 2 ^ 64) k, bit-not64 v k p)
  | no p ↦ omega (arith, bit-and x (2 ^ 64 - 1 - v % 2 ^ 64) k, bit-eq_zero 32 k x h (omega arith))
]

bit-two_pow_suc : (j k : ℕ) → bit (2 ^ suc j) (suc k) ≡ bit (2 ^ j) k
unfolding bit
bit-two_pow_suc j k =
    let e : 2 ^ suc j / 2 ≡ 2 ^ j = omega (arith, pow-suc 2 j) in ap (λ (x : ℕ). bit x k) e

-- `1 << j` has the one digit `j`.
pub bit-two_pow : (j k : ℕ) → bit (2 ^ j) k ≡ (if k == j then 1 else 0)
bit-two_pow zero zero = unfold bit in refl
bit-two_pow zero (suc k) = unfold bit in ground (arith, bit-zero k)
bit-two_pow (suc j) zero = unfold bit in ground (arith, pow-suc 2 j)
bit-two_pow (suc j) (suc k) = rw (bit-two_pow_suc j k) (ground (arith, bit-two_pow j k))

-- A flag test reads one digit.
pub has-flag : (k a : ℕ) → has a (2 ^ k) ≡ (bit a k == 1)
has-flag k a = ground (arith, bit_and_flag k a, bit_le a k, one-le-pow k 2)
