-- ===== src/Mapper/Loops.antt =====
-- The two do-while loops of `crush_choose_firstn` around a turn.
pub mod Accept
pub mod Total
pub mod Same
use my_ceph.Common.{u32, ℕ, zero, suc, ◌+◌, Outcome, ok, out_of_fuel, ◌>>=◌, ℤ, Bool, true, false}
use my_ceph.CrushMap.{CrushBucketStraw2}
use my_ceph.Mapper.Memory.{Mem}
use my_ceph.Mapper.Turn.{
  Attempt, Turn, descend_into, retry_bucket, retry_descent, skip_rep, take_item, turn,
}

-- The turns of one descent, and the descents of one replica, that the model makes.
pub record Fuel : Type 0 where
  pub inner : ℕ
  pub outer : ℕ

-- How the inner loop ends.
pub data Descent : Type 0 where
  restart : ℕ → ℤ → Mem → Descent
  given_up : ℤ → Mem → Descent
  chosen : ℤ → Mem → Descent

-- `do { ... } while (retry_bucket);`
unfoldable pub try_bucket : ℕ → Attempt → CrushBucketStraw2 → ℕ → ℕ → ℤ → Mem → Outcome Descent
try_bucket zero a in_bucket ftotal flocal item mem = out_of_fuel
try_bucket (suc fuel) a in_bucket ftotal flocal item mem =
    turn a in_bucket ftotal flocal item mem >>= λ t. elim t [
      | descend_into b item' mem' ↦ try_bucket fuel a b ftotal flocal item' mem'
      | retry_bucket item' mem' ↦
          try_bucket fuel a in_bucket (u32 (ftotal + 1)) (u32 (flocal + 1)) item' mem'
      | retry_descent item' mem' ↦ ok (restart (u32 (ftotal + 1)) item' mem')
      | skip_rep item' mem' ↦ ok (given_up item' mem')
      | take_item item' mem' ↦ ok (chosen item' mem')
    ]

-- `do { ... } while (retry_descent);`: was an item taken, and the last item.
unfoldable pub place : ℕ → ℕ → Attempt → ℕ → ℤ → Mem → Outcome (Bool × ℤ × Mem)
place zero inner a ftotal item mem = out_of_fuel
place (suc outer) inner a ftotal item mem = try_bucket inner a a.bucket ftotal 0 item mem >>= λ d.
    elim d [
      | restart ftotal' item' mem' ↦ place outer inner a ftotal' item' mem'
      | given_up item' mem' ↦ ok (false, item', mem')
      | chosen item' mem' ↦ ok (true, item', mem')
    ]
