-- ===== src/Bits/Step.antt =====
-- The native `bit_xor` and `bit_and` as one equation for the lowest digit, without fuel.
use Prim.Native.Nat.{min, digits, bitwise, differ, bit_and-bitwise, bit_xor-bitwise}
use native.Mathlib.Nat.{le_refl}
use my_ceph.Common.{
  ℕ, zero, suc, ◌+◌, ◌*◌, ◌/◌, ◌%◌, ◌≤◌, bit_and, bit_xor, ◌≡◌, refl, sym, ◌∙◌, arith,
}

module _ (z : ℕ → ℕ) (f : ℕ → ℕ → ℕ) where
  digits_zero : (n b : ℕ) → digits z f n 0 b ≡ z b
  digits_zero (suc n) b = refl
  digits_zero zero b = refl

  -- Fuel beyond the number itself changes nothing.
  digits_at : (b a n m : ℕ) → a ≤ n → n ≤ m → digits z f m a b ≡ digits z f n a b
  digits_at b zero n m p q = digits_zero m b ∙ sym (digits_zero n b)
  digits_at b (suc a) (suc n) (suc m) p q =
      rw (digits_at (b / 2) (suc a / 2) n m (omega arith) (omega arith)) refl
  digits_at b (suc a) zero m p q = absurd (omega arith)
  digits_at b (suc a) (suc n) zero p q = absurd (omega arith)

  -- One digit of a bitwise operation, and the digits above it.
  bitwise-suc :
      (y x : ℕ)
      → bitwise z f (suc x) y ≡ f (suc x % 2) (y % 2) + 2 * bitwise z f (suc x / 2) (y / 2)
  bitwise-suc y x =
      omega (arith, digits_at (y / 2) (suc x / 2) (suc x / 2) x (le_refl _) (omega arith))

-- The lowest digit of `a ^ b`, for digits 0 and 1.
abbrev pub differ_bit : ℕ → ℕ → ℕ
differ_bit = differ

pub differ_cases : (x y : ℕ) → differ_bit (x % 2) (y % 2) ≡ (x + y) % 2
differ_cases x y = go (x % 2) (y % 2) (omega arith) (omega arith) (omega arith)
  where
    go : (p q : ℕ) → p ≤ 1 → q ≤ 1 → (x + y) % 2 ≡ (p + q) % 2 → differ_bit p q ≡ (x + y) % 2
    go zero zero hp hq e = omega arith
    go zero (suc zero) hp hq e = omega arith
    go (suc zero) zero hp hq e = omega arith
    go (suc zero) (suc zero) hp hq e = omega arith
    go (suc (suc p)) q hp hq e = absurd (omega arith)
    go p (suc (suc q)) hp hq e = absurd (omega arith)

pub bit_xor_step : (x y : ℕ) → bit_xor x y ≡ (x + y) % 2 + 2 * bit_xor (x / 2) (y / 2)
bit_xor_step zero y = simp bit_xor-bitwise (omega arith)
bit_xor_step (suc x) y =
    simp bit_xor-bitwise (omega (arith, bitwise-suc (λ k. k) differ y x, differ_cases (suc x) y))

pub bit_and_step : (x y : ℕ) → bit_and x y ≡ min (x % 2) (y % 2) + 2 * bit_and (x / 2) (y / 2)
bit_and_step zero y = simp bit_and-bitwise (omega arith)
bit_and_step (suc x) y = simp bit_and-bitwise (omega (arith, bitwise-suc (λ k. 0) min y x))
