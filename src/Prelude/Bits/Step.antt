-- ===== src/Prelude/Bits/Step.antt =====
-- The lowest digit of a bitwise operation, from the recursion that defines it.
use Prim.Native.Nat.{ℕ, zero, suc, ◌+◌, ◌-◌, ◌*◌, ◌/◌, ◌%◌, ◌≤◌, bit_and, bit_or}
use Prim.Native.Nat.{min, max, digits, bit_and-bitwise, bit_or-bitwise}
use mathlib.Core.Path.{◌≡◌, refl, sym, ap, ◌∙◌}
use native.Mathlib.Omega.{arith}

module _ (rest : ℕ → ℕ) (op : ℕ → ℕ → ℕ) where
  -- A round beyond the size of the left operand is not needed.
  one_more :
      (rounds x y : ℕ) → x ≤ rounds → digits rest op (suc rounds) x y ≡ digits rest op rounds x y
  one_more zero zero y h = refl
  one_more (suc r) zero y h = refl
  one_more zero (suc x) y h = absurd (omega arith)
  one_more (suc r) (suc x) y h = rw (one_more r (suc x / 2) (y / 2) (omega arith)) refl

  -- Nor are `extra` of them.
  extra_rounds :
      (extra rounds x y : ℕ)
      → x ≤ rounds
      → digits rest op (extra + rounds) x y ≡ digits rest op rounds x y
  extra_rounds zero rounds x y h = let e : 0 + rounds ≡ rounds = omega arith in rw e refl
  extra_rounds (suc k) rounds x y h =
      let e : suc k + rounds ≡ suc (k + rounds) = omega arith in
      rw e (one_more (k + rounds) x y (omega arith) ∙ extra_rounds k rounds x y h)

  -- The operation on the halves, below it the operation on the lowest digits.
  lowest_digit :
      (x y : ℕ)
      → digits rest op (suc x) (suc x) y
        ≡ digits rest op (suc x / 2) (suc x / 2) (y / 2) * 2 + op (suc x % 2) (y % 2)
  lowest_digit x y =
      let split : x - suc x / 2 + suc x / 2 ≡ x = omega arith in
      let e = extra_rounds (x - suc x / 2) (suc x / 2) (suc x / 2) (y / 2) (omega arith) in
      let t : digits rest op x (suc x / 2) (y / 2)
          ≡ digits rest op (suc x / 2) (suc x / 2) (y / 2) =
        ap (λ n. digits rest op n (suc x / 2) (y / 2)) (sym split) ∙ e in
      omega (arith, t)

pub bit_or_step : (a b : ℕ) → bit_or a b ≡ bit_or (a / 2) (b / 2) * 2 + max (a % 2) (b % 2)
bit_or_step zero y = simp bit_or-bitwise (omega arith)
bit_or_step (suc x) y = simp bit_or-bitwise (lowest_digit (λ b. b) max x y)

pub bit_and_step : (a b : ℕ) → bit_and a b ≡ bit_and (a / 2) (b / 2) * 2 + min (a % 2) (b % 2)
bit_and_step zero y = simp bit_and-bitwise (omega arith)
bit_and_step (suc x) y = simp bit_and-bitwise (lowest_digit (λ b. zero) min x y)
