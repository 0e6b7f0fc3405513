-- ===== src/Straw/Draw.antt =====
-- What one item draws: a number that is not positive, longer for a larger weight, and never as
-- short as that of an item without weight.
use my_ceph.Common.{ℕ, ◌-◌, ◌/◌, ◌^◌, ◌≤◌, ◌<◌, ◌≡◌, ap, arith, low_bits, sub64}
use my_ceph.Common.{pos, negsuc, neg_ℕ, signed32, signed64, quot_ℤ, ◌≤ℤ◌, ok}
use my_ceph.Hash.{crush_hash32_3}
use my_ceph.Ln.{generate_exponential_distribution}
use my_ceph.Ln.Monotone.{crush_ln-le-top_value}

below_one : (l : ℕ) → l < 2 ^ 48 → signed64 (sub64 l 0x1000000000000) ≡ negsuc (2 ^ 48 - l - 1)
below_one l h = ground arith

small_weight : (w : ℕ) → w < 2 ^ 31 → signed32 w ≡ pos w
small_weight w h = ground arith

quot_below :
    (l w : ℕ) → l < 2 ^ 48 → quot_ℤ (negsuc (2 ^ 48 - l - 1)) (pos w) ≡ neg_ℕ ((2 ^ 48 - l) / w)
unfolding quot_ℤ
quot_below l w h = ap (λ (t : ℕ). neg_ℕ (t / w)) (omega arith)

-- The gap between 2^48 and the logarithm of the hash.
pub record Gap (t x y z gap : ℕ) : Type 0 where
  pub positive : 0 < gap
  pub small : gap ≤ 2 ^ 48
  pub draws :
      (w : ℕ) → w < 2 ^ 31 → generate_exponential_distribution t x y z w ≡ ok (neg_ℕ (gap / w))

pub distance_of : (t x y z : ℕ) → (gap : ℕ) × Gap t x y z gap
unfolding generate_exponential_distribution
distance_of t x y z =
    let (l, e, le) = crush_ln-le-top_value (low_bits (crush_hash32_3 t x y z) 16) (omega arith) in
    (
      2 ^ 48 - l,
      record {
        positive = omega arith;
        small = omega arith;
        draws = λ w h.
            rw (e, below_one l (omega arith), small_weight w h)
              (ap ok (quot_below l w (omega arith)));
      },
    )

div-le-div : (g v w : ℕ) → 0 < v → v ≤ w → g / w ≤ g / v
div-le-div g v w h le = grind arith

-- A larger weight draws a straw that is no shorter.
pub neg_gap_mono : (g v w : ℕ) → 0 < v → v ≤ w → neg_ℕ (g / v) ≤ℤ neg_ℕ (g / w)
neg_gap_mono g v w h le = ground (arith, div-le-div g v w h le)
