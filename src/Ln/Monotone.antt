-- ===== src/Ln/Monotone.antt =====
-- `crush_ln` on its 16-bit inputs: it never reads outside a table, rises with its argument up to
-- 65534, and stays below 2^48. The first fact is evaluated at every input.
use my_ceph.Common.{
  ℕ, zero, suc, ◌+◌, ◌-◌, ◌≤◌, ◌<◌, ◌≡◌, refl, subst, arith, Bool, true, false, leb, Outcome, ok,
  fault, out_of_fuel, all_from, all_from_sound, dec_lt,
}
use my_ceph.Ln.{crush_ln}

rises_of : Outcome ℕ → Outcome ℕ → Bool
rises_of (ok a) (ok b) = leb a b
rises_of _ _ = false

-- Both runs come to a value, and the second value is no less.
abbrev pub LeOutcome : Outcome ℕ → Outcome ℕ → Type 0
LeOutcome m n = (a : ℕ) × (b : ℕ) × (m ≡ ok a) × (n ≡ ok b) × (a ≤ b)

rises_of_sound : (m n : Outcome ℕ) → rises_of m n ≡ true → LeOutcome m n
unfolding rises_of
rises_of_sound (ok a) (ok b) h = (a, b, refl, refl, ground arith)
rises_of_sound (ok a) fault h = absurd (cc)
rises_of_sound (ok a) out_of_fuel h = absurd (cc)
rises_of_sound fault n h = absurd (cc)
rises_of_sound out_of_fuel n h = absurd (cc)

LeOutcome-trans : {m n k : Outcome ℕ} → LeOutcome m n → LeOutcome n k → LeOutcome m k
LeOutcome-trans (a, b, p, q, h) (c, d, r, s, g) = (a, d, p, s, ground arith)

rises : ℕ → Bool
unfolding rises_of
rises u = rises_of (crush_ln u) (crush_ln (u + 1))

rises_1 : all_from 16384 0 rises ≡ true
unfolding all_from rises crush_ln
rises_1 = refl

rises_2 : all_from 16384 16384 rises ≡ true
unfolding all_from rises crush_ln
rises_2 = refl

rises_3 : all_from 16384 32768 rises ≡ true
unfolding all_from rises crush_ln
rises_3 = refl

rises_4 : all_from 16382 49152 rises ≡ true
unfolding all_from rises crush_ln
rises_4 = refl

rises_below : (u : ℕ) → u < 65534 → rises u ≡ true
rises_below u h = elim (dec_lt u 16384) [
  | yes p ↦ all_from_sound 16384 0 rises u rises_1 (omega arith) (omega arith)
  | no p ↦ elim (dec_lt u 32768) [
    | yes q ↦ all_from_sound 16384 16384 rises u rises_2 (omega arith) (omega arith)
    | no q ↦ elim (dec_lt u 49152) [
      | yes r ↦ all_from_sound 16384 32768 rises u rises_3 (omega arith) (omega arith)
      | no r ↦ all_from_sound 16382 49152 rises u rises_4 (omega arith) (omega arith)
    ]
  ]
]

crush_ln_step : (u : ℕ) → u < 65534 → LeOutcome (crush_ln u) (crush_ln (u + 1))
unfolding rises
crush_ln_step u h = rises_of_sound (crush_ln u) (crush_ln (u + 1)) (rises_below u h)

-- The largest value, at 65534, and the last, at 65535, which is smaller.
abbrev pub top_value : ℕ
top_value = 0xfffffd61ad10

crush_ln_top : crush_ln 65534 ≡ ok top_value
unfolding crush_ln
crush_ln_top = refl

crush_ln_last : crush_ln 65535 ≡ ok 0xfffff0000000
unfolding crush_ln
crush_ln_last = refl

LeOutcome-left : {m n : Outcome ℕ} → LeOutcome m n → LeOutcome m m
LeOutcome-left (a, b, p, q, h) = (a, a, p, p, omega arith)

rises_by : (d u : ℕ) → u + d ≤ 65534 → LeOutcome (crush_ln u) (crush_ln (u + d))
rises_by zero u h = elim (dec_lt u 65534) [
  | yes p ↦
      subst (λ k. LeOutcome (crush_ln u) (crush_ln k)) (omega arith)
        (LeOutcome-left (crush_ln_step u p))
  | no p ↦
      subst (λ k. LeOutcome (crush_ln k) (crush_ln (k + 0))) (omega arith)
        (top_value, top_value, crush_ln_top, crush_ln_top, omega arith)
]
rises_by (suc d) u h =
    subst (λ k. LeOutcome (crush_ln u) (crush_ln k)) (omega arith)
      (LeOutcome-trans (crush_ln_step u (omega arith)) (rises_by d (u + 1) (omega arith)))

-- Up to 65534 `crush_ln` returns a value at every input, and a larger input gives no smaller one.
pub crush_ln-LeOutcome : (u v : ℕ) → u ≤ v → v ≤ 65534 → LeOutcome (crush_ln u) (crush_ln v)
crush_ln-LeOutcome u v h k =
    subst (λ w. LeOutcome (crush_ln u) (crush_ln w)) (omega arith)
      (rises_by (v - u) u (omega arith))

-- Of a 16-bit input `crush_ln` returns a value that is no larger than `top_value`, which is below
-- 2^48.
pub crush_ln-le-top_value : (u : ℕ) → u ≤ 0xffff → (l : ℕ) × (crush_ln u ≡ ok l) × (l ≤ top_value)
crush_ln-le-top_value u h = elim (dec_lt u 65535) [
  | yes p ↦ below u (omega arith)
  | no p ↦
      subst (λ k. (l : ℕ) × (crush_ln k ≡ ok l) × (l ≤ top_value)) (omega arith)
        (0xfffff0000000, crush_ln_last, omega arith)
]
  where
    below : (k : ℕ) → k ≤ 65534 → (l : ℕ) × (crush_ln k ≡ ok l) × (l ≤ top_value)
    below k hk = top_of (crush_ln-LeOutcome k 65534 hk (omega arith))
      where
        top_of :
            LeOutcome (crush_ln k) (crush_ln 65534)
            → (l : ℕ) × (crush_ln k ≡ ok l) × (l ≤ top_value)
        top_of (a, b, p, q, le) = (a, p, ground (arith, crush_ln_top))
