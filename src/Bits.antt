-- ===== src/Bits.antt =====
-- The bitwise operators of C on native numbers: exclusive or undoes itself and keeps a width, and
-- `&` with a mask.
mod Step
use Step.{bit_xor_step, bit_and_step}
use mathlib.Core.Path.{◌≡⟨◌⟩◌, ◌∎}
use native.Mathlib.Nat.{pow-suc, div-div-eq-div-mul, mul-one, div-one}
use my_ceph.Common.{
  ℕ, zero, suc, ◌+◌, ◌*◌, ◌/◌, ◌%◌, ◌^◌, ◌≤◌, ◌<◌, bit_and, bit_xor, ◌≡◌, refl, sym, ap, ◌∙◌, arith,
}

bit_xor_twice : (n a b : ℕ) → a ≤ n → b ≤ n → bit_xor (bit_xor a b) b ≡ a
bit_xor_twice zero zero zero p q = refl
bit_xor_twice zero (suc a) b p q = absurd (omega arith)
bit_xor_twice zero zero (suc b) p q = absurd (omega arith)
bit_xor_twice (suc n) a b p q = omega (
  arith,
  bit_xor_step a b,
  bit_xor_step (bit_xor a b) b,
  half,
  bit_xor_twice n (a / 2) (b / 2) (omega arith) (omega arith),
)
  where
    half : bit_xor (bit_xor a b / 2) (b / 2) ≡ bit_xor (bit_xor (a / 2) (b / 2)) (b / 2)
    half = ap (λ (t : ℕ). bit_xor t (b / 2)) (omega (arith, bit_xor_step a b))

-- `a ^ b ^ b` is `a`.
pub bit_xor-bit_xor : (a b : ℕ) → bit_xor (bit_xor a b) b ≡ a
bit_xor-bit_xor a b = bit_xor_twice (a + b) a b (omega arith) (omega arith)

-- An exclusive or is no wider than its operands.
pub bit_xor-lt : (k a b : ℕ) → a < 2 ^ k → b < 2 ^ k → bit_xor a b < 2 ^ k
bit_xor-lt zero zero zero p q = omega arith
bit_xor-lt zero (suc a) b p q = absurd (omega arith)
bit_xor-lt zero zero (suc b) p q = absurd (omega arith)
bit_xor-lt (suc k) a b p q = omega (
  arith,
  pow-suc 2 k,
  bit_xor_step a b,
  bit_xor-lt k (a / 2) (b / 2) (omega (arith, pow-suc 2 k)) (omega (arith, pow-suc 2 k)),
)

double-shift : (k m : ℕ) → 2 * (m * 2 ^ k) ≡ m * 2 ^ suc k
double-shift k m = omega (arith, ap (λ (p : ℕ). m * p) (pow-suc 2 k))

div-two-pow-suc : (x k : ℕ) → x / 2 / 2 ^ k ≡ x / 2 ^ suc k
div-two-pow-suc x k =
    div-div-eq-div-mul x 2 (2 ^ k) ∙ ap (λ (t : ℕ). x / t) (omega (arith, pow-suc 2 k))

-- `x & (m << 1)` looks at `x >> 1`.
bit_and-double : (x m : ℕ) → bit_and x (2 * m) ≡ 2 * bit_and (x / 2) m
bit_and-double x m = omega (arith, bit_and_step x (2 * m), ap (λ (t : ℕ). bit_and (x / 2) t) half)
  where
    half : 2 * m / 2 ≡ m
    half = omega arith

-- `x & (m << k)` looks at `x >> k`.
pub bit_and-shift : (k x m : ℕ) → bit_and x (m * 2 ^ k) ≡ bit_and (x / 2 ^ k) m * 2 ^ k
bit_and-shift zero x m = simp (mul-one, div-one)
bit_and-shift (suc k) x m =
    bit_and x (m * 2 ^ suc k)
    ≡⟨ ap (bit_and x) (sym (double-shift k m)) ⟩ bit_and x (2 * (m * 2 ^ k))
    ≡⟨ bit_and-double x (m * 2 ^ k) ⟩ 2 * bit_and (x / 2) (m * 2 ^ k)
    ≡⟨ ap (λ (t : ℕ). 2 * t) (bit_and-shift k (x / 2) m) ⟩ 2 * (bit_and (x / 2 / 2 ^ k) m * 2 ^ k)
    ≡⟨ ap (λ (t : ℕ). 2 * (bit_and t m * 2 ^ k)) (div-two-pow-suc x k) ⟩
      2 * (bit_and (x / 2 ^ suc k) m * 2 ^ k)
    ≡⟨ double-shift k (bit_and (x / 2 ^ suc k) m) ⟩ bit_and (x / 2 ^ suc k) m * 2 ^ suc k ∎
