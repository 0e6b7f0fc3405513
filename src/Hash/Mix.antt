-- ===== src/Hash/Mix.antt =====
-- `crush_hashmix` loses nothing: it permutes the triples of 32-bit words.
use my_ceph.Common.{ℕ, ◌+◌, ◌<◌, ◌^◌, ◌≡◌, ap, arith, bit_xor, u32, sub32, shr, shl32, ◌∙◌}
use native.Mathlib.Nat.{div-le_self}
use my_ceph.Bits.{bit_xor-bit_xor, bit_xor-lt}
use my_ceph.Hash.{Words, mix_line, line_a, line_b, line_c, mix_round, crush_hashmix}

-- The three variables hold `__u32` values.
pub record IsWords (w : Words) : Type 0 where
  pub a_fits : w.a < 2 ^ 32
  pub b_fits : w.b < 2 ^ 32
  pub c_fits : w.c < 2 ^ 32

-- A line undone: the exclusive or first, then the two differences.
pub unmix_line : ℕ → ℕ → ℕ → ℕ → ℕ
unmix_line x y z s = u32 (bit_xor x s + z + y)

unmix_line-mix_line :
    (x y z s : ℕ) → x < 2 ^ 32 → y < 2 ^ 32 → z < 2 ^ 32 → unmix_line (mix_line x y z s) y z s ≡ x
unfolding unmix_line mix_line
unmix_line-mix_line x y z s hx hy hz = rw (bit_xor-bit_xor (sub32 (sub32 x y) z) s) (omega arith)

mix_line-unmix_line :
    (x y z s : ℕ)
    → x < 2 ^ 32
    → y < 2 ^ 32
    → z < 2 ^ 32
    → s < 2 ^ 32
    → mix_line (unmix_line x y z s) y z s ≡ x
unfolding unmix_line mix_line
mix_line-unmix_line x y z s hx hy hz hs =
    ap (λ (t : ℕ). bit_xor t s) (omega (arith, bit_xor-lt 32 x s hx hs)) ∙ bit_xor-bit_xor x s

mix_line-lt : (x y z s : ℕ) → s < 2 ^ 32 → mix_line x y z s < 2 ^ 32
unfolding mix_line
mix_line-lt x y z s h = bit_xor-lt 32 (sub32 (sub32 x y) z) s (omega arith) h

unmix_line-lt : (x y z s : ℕ) → unmix_line x y z s < 2 ^ 32
unfolding unmix_line
unmix_line-lt x y z s = omega arith

shr-lt : (k x : ℕ) → x < 2 ^ 32 → shr x k < 2 ^ 32
shr-lt k x h = omega (arith, div-le_self x (2 ^ k))

unline_a : ℕ → Words → Words
unline_a k w = record w { a = unmix_line w.a w.b w.c (shr w.c k) }

line_a-IsWords : {w : Words} (k : ℕ) → IsWords w → IsWords (line_a k w)
unfolding line_a
line_a-IsWords {w} k v = record {
  a_fits = mix_line-lt w.a w.b w.c (shr w.c k) (shr-lt k w.c v.c_fits);
  b_fits = v.b_fits;
  c_fits = v.c_fits;
}

unline_a-IsWords : {w : Words} (k : ℕ) → IsWords w → IsWords (unline_a k w)
unfolding unline_a
unline_a-IsWords {w} k v = record {
  a_fits = unmix_line-lt w.a w.b w.c (shr w.c k);
  b_fits = v.b_fits;
  c_fits = v.c_fits;
}

unline_a-line_a : {w : Words} (k : ℕ) → IsWords w → unline_a k (line_a k w) ≡ w
unfolding line_a unline_a
unline_a-line_a {w} k v = λ i. record w { a = undone i }
  where
    undone : unmix_line (mix_line w.a w.b w.c (shr w.c k)) w.b w.c (shr w.c k) ≡ w.a
    undone = unmix_line-mix_line w.a w.b w.c (shr w.c k) v.a_fits v.b_fits v.c_fits

line_a-unline_a : {w : Words} (k : ℕ) → IsWords w → line_a k (unline_a k w) ≡ w
unfolding line_a unline_a
line_a-unline_a {w} k v = λ i. record w { a = redone i }
  where
    redone : mix_line (unmix_line w.a w.b w.c (shr w.c k)) w.b w.c (shr w.c k) ≡ w.a
    redone =
        mix_line-unmix_line w.a w.b w.c (shr w.c k) v.a_fits v.b_fits v.c_fits
          (shr-lt k w.c v.c_fits)

unline_b : ℕ → Words → Words
unline_b k w = record w { b = unmix_line w.b w.c w.a (shl32 w.a k) }

line_b-IsWords : {w : Words} (k : ℕ) → IsWords w → IsWords (line_b k w)
unfolding line_b
line_b-IsWords {w} k v = record {
  a_fits = v.a_fits;
  b_fits = mix_line-lt w.b w.c w.a (shl32 w.a k) (omega arith);
  c_fits = v.c_fits;
}

unline_b-IsWords : {w : Words} (k : ℕ) → IsWords w → IsWords (unline_b k w)
unfolding unline_b
unline_b-IsWords {w} k v = record {
  a_fits = v.a_fits;
  b_fits = unmix_line-lt w.b w.c w.a (shl32 w.a k);
  c_fits = v.c_fits;
}

unline_b-line_b : {w : Words} (k : ℕ) → IsWords w → unline_b k (line_b k w) ≡ w
unfolding line_b unline_b
unline_b-line_b {w} k v = λ i. record w { b = undone i }
  where
    undone : unmix_line (mix_line w.b w.c w.a (shl32 w.a k)) w.c w.a (shl32 w.a k) ≡ w.b
    undone = unmix_line-mix_line w.b w.c w.a (shl32 w.a k) v.b_fits v.c_fits v.a_fits

line_b-unline_b : {w : Words} (k : ℕ) → IsWords w → line_b k (unline_b k w) ≡ w
unfolding line_b unline_b
line_b-unline_b {w} k v = λ i. record w { b = redone i }
  where
    redone : mix_line (unmix_line w.b w.c w.a (shl32 w.a k)) w.c w.a (shl32 w.a k) ≡ w.b
    redone = mix_line-unmix_line w.b w.c w.a (shl32 w.a k) v.b_fits v.c_fits v.a_fits (omega arith)

unline_c : ℕ → Words → Words
unline_c k w = record w { c = unmix_line w.c w.a w.b (shr w.b k) }

line_c-IsWords : {w : Words} (k : ℕ) → IsWords w → IsWords (line_c k w)
unfolding line_c
line_c-IsWords {w} k v = record {
  a_fits = v.a_fits;
  b_fits = v.b_fits;
  c_fits = mix_line-lt w.c w.a w.b (shr w.b k) (shr-lt k w.b v.b_fits);
}

unline_c-IsWords : {w : Words} (k : ℕ) → IsWords w → IsWords (unline_c k w)
unfolding unline_c
unline_c-IsWords {w} k v = record {
  a_fits = v.a_fits;
  b_fits = v.b_fits;
  c_fits = unmix_line-lt w.c w.a w.b (shr w.b k);
}

unline_c-line_c : {w : Words} (k : ℕ) → IsWords w → unline_c k (line_c k w) ≡ w
unfolding line_c unline_c
unline_c-line_c {w} k v = λ i. record w { c = undone i }
  where
    undone : unmix_line (mix_line w.c w.a w.b (shr w.b k)) w.a w.b (shr w.b k) ≡ w.c
    undone = unmix_line-mix_line w.c w.a w.b (shr w.b k) v.c_fits v.a_fits v.b_fits

line_c-unline_c : {w : Words} (k : ℕ) → IsWords w → line_c k (unline_c k w) ≡ w
unfolding line_c unline_c
line_c-unline_c {w} k v = λ i. record w { c = redone i }
  where
    redone : mix_line (unmix_line w.c w.a w.b (shr w.b k)) w.a w.b (shr w.b k) ≡ w.c
    redone =
        mix_line-unmix_line w.c w.a w.b (shr w.b k) v.c_fits v.a_fits v.b_fits
          (shr-lt k w.b v.b_fits)

unmix_round : ℕ → ℕ → ℕ → Words → Words
unmix_round i j k w = unline_a i (unline_b j (unline_c k w))

pub mix_round-IsWords : {w : Words} (i j k : ℕ) → IsWords w → IsWords (mix_round i j k w)
unfolding mix_round
mix_round-IsWords i j k v = line_c-IsWords k (line_b-IsWords j (line_a-IsWords i v))

unmix_round-IsWords : {w : Words} (i j k : ℕ) → IsWords w → IsWords (unmix_round i j k w)
unfolding unmix_round
unmix_round-IsWords i j k v = unline_a-IsWords i (unline_b-IsWords j (unline_c-IsWords k v))

unmix_round-mix_round :
    {w : Words} (i j k : ℕ) → IsWords w → unmix_round i j k (mix_round i j k w) ≡ w
unfolding unmix_round mix_round
unmix_round-mix_round i j k v = rw (
  unline_c-line_c k (line_b-IsWords j (line_a-IsWords i v)),
  unline_b-line_b j (line_a-IsWords i v),
  unline_a-line_a i v,
)

mix_round-unmix_round :
    {w : Words} (i j k : ℕ) → IsWords w → mix_round i j k (unmix_round i j k w) ≡ w
unfolding unmix_round mix_round
mix_round-unmix_round i j k v = rw (
  line_a-unline_a i (unline_b-IsWords j (unline_c-IsWords k v)),
  line_b-unline_b j (unline_c-IsWords k v),
  line_c-unline_c k v,
)

-- The nine lines undone, the last first.
pub unmix : Words → Words
unmix w = unmix_round 13 8 13 (unmix_round 12 16 5 (unmix_round 3 10 15 w))

-- The mix of three 32-bit words is three 32-bit words.
pub crush_hashmix-IsWords : {w : Words} → IsWords w → IsWords (crush_hashmix w)
unfolding crush_hashmix
crush_hashmix-IsWords v =
    mix_round-IsWords 3 10 15 (mix_round-IsWords 12 16 5 (mix_round-IsWords 13 8 13 v))

-- On three 32-bit words `crush_hashmix` is undone by `unmix`, and undoes it: no two triples mix to
-- the same one, and every triple is the mix of one.
pub crush_hashmix_bijective :
    (w : Words) → IsWords w → (unmix (crush_hashmix w) ≡ w) × (crush_hashmix (unmix w) ≡ w)
unfolding crush_hashmix unmix
crush_hashmix_bijective w v = (
  rw (
    unmix_round-mix_round 3 10 15 (mix_round-IsWords 12 16 5 (mix_round-IsWords 13 8 13 v)),
    unmix_round-mix_round 12 16 5 (mix_round-IsWords 13 8 13 v),
    unmix_round-mix_round 13 8 13 v,
  ),
  rw (
    mix_round-unmix_round 13 8 13 (unmix_round-IsWords 12 16 5 (unmix_round-IsWords 3 10 15 v)),
    mix_round-unmix_round 12 16 5 (unmix_round-IsWords 3 10 15 v),
    mix_round-unmix_round 3 10 15 v,
  ),
)
