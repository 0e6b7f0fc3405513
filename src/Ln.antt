-- ===== src/Ln.antt =====
-- CRUSH_Research/include/rseudo_random_number.h: the fixed-point logarithm that turns a hash into
-- an exponentially distributed draw. `crush_ln` is 2^44 * log2(x + 1) for a 16-bit x.
pub mod Table
pub mod Monotone
use my_ceph.Common.{
  ℕ, zero, suc, ◌+◌, ◌-◌, ◌*◌, ◌^◌, ◌==◌, ltb, bit_and, if◌then◌else◌, u32, u64, shl32, shr,
  low_bits, get_elem?, none, some,
}
use my_ceph.Common.{ℤ, signed32, signed64, quot_ℤ, sub64, Outcome, ok, from_option, ◌>>=◌}
use my_ceph.Hash.{crush_hash32_3}
use my_ceph.Ln.Table.{rh_lh_tbl, ll_tbl}

-- The zeros above the highest one of a word of the given width.
pub leading_zeros : ℕ → ℕ → ℕ
leading_zeros zero x = 0
leading_zeros (suc w) x = if ltb x (2 ^ w) then suc (leading_zeros w x) else 0

-- `__builtin_clz`
abbrev pub clz32 : ℕ → ℕ
clz32 x = leading_zeros 32 x

-- `x <<= bits` and `iexpon = 15 - bits`, where bits 15 and 16 of x are clear; the shift leaves
-- the word that is looked up, with its exponent.
pub normalize : ℕ → ℕ × ℕ
unfolding leading_zeros
normalize x =
    if bit_and x 0x18000 == 0
    then (let bits = clz32 (low_bits x 17) - 16 in (shl32 x bits, 15 - bits))
    else (x, 15)

-- The rest of `crush_ln`, for the normalized word and its exponent. `index1 - 256` is negative for a
-- word that has not been normalized: a read outside the table.
pub crush_ln_at : ℕ × ℕ → Outcome ℕ
unfolding rh_lh_tbl ll_tbl
crush_ln_at (x, iexpon) = do
  let index1 = u32 (shr x 8 * 2)
  offset ← from_option (if ltb index1 256 then none else some (index1 - 256))
  rh ← from_option (get_elem? rh_lh_tbl offset)
  lh ← from_option (get_elem? rh_lh_tbl (offset + 1))
  let index2 = low_bits (shr (u64 (x * rh)) 48) 8
  ll ← from_option (get_elem? ll_tbl index2)
  ok (u64 (u64 (iexpon * 2 ^ 44) + shr (u64 (lh + ll)) 4))

unfoldable pub crush_ln : ℕ → Outcome ℕ
unfolding normalize crush_ln_at
crush_ln xin = crush_ln_at (normalize (u32 (xin + 1)))

-- `generate_exponential_distribution`: `x`, `y` and `z` are the bit patterns of the `int`
-- arguments, `weight` is the bit pattern that the function reads as an `int`.
unfoldable pub generate_exponential_distribution : ℕ → ℕ → ℕ → ℕ → ℕ → Outcome ℤ
generate_exponential_distribution t x y z weight = do
  let u = low_bits (crush_hash32_3 t x y z) 16
  l ← crush_ln u
  ok (quot_ℤ (signed64 (sub64 l 0x1000000000000)) (signed32 weight))
