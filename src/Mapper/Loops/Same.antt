-- ===== src/Mapper/Loops/Same.antt =====
-- The loops of a replica do not depend on the recursive call, when devices are looked for, nor on
-- the item left over from the replica before, when the start has items.
use my_ceph.Common.{u32, ℕ, zero, suc, ◌+◌, ◌≡◌, ◌≢◌, refl, Bool, true, false, Outcome, ok, ℤ}
use my_ceph.CrushMap.{CrushBucketStraw2}
use my_ceph.Mapper.Memory.{Mem}
use my_ceph.Mapper.Turn.{
  Attempt, Turn, descend_into, retry_bucket, retry_descent, skip_rep, take_item,
}
use my_ceph.Mapper.Turn.Same.{with_leaf, IsTyped, >>=-cong, turn_same_leaf, turn_same_item}
use my_ceph.Mapper.Loops.{Descent, restart, given_up, chosen, try_bucket, place}

-- How the loops go on after a turn and after a descent, with their own calls as arguments.
abbrev after_turn :
    (CrushBucketStraw2 → ℕ → ℕ → ℤ → Mem → Outcome Descent)
    → CrushBucketStraw2
    → ℕ
    → ℕ
    → Turn
    → Outcome Descent
after_turn again b ft fl s = elim s [
  | descend_into c item mem ↦ again c ft fl item mem
  | retry_bucket item mem ↦ again b (u32 (ft + 1)) (u32 (fl + 1)) item mem
  | retry_descent item mem ↦ ok (restart (u32 (ft + 1)) item mem)
  | skip_rep item mem ↦ ok (given_up item mem)
  | take_item item mem ↦ ok (chosen item mem)
]

abbrev after_descent : (ℕ → ℤ → Mem → Outcome (Bool × ℤ × Mem)) → Descent → Outcome (Bool × ℤ × Mem)
after_descent again d = elim d [
  | restart ft item mem ↦ again ft item mem
  | given_up item mem ↦ ok (false, item, mem)
  | chosen item mem ↦ ok (true, item, mem)
]

after_turn-cong :
    (f g : CrushBucketStraw2 → ℕ → ℕ → ℤ → Mem → Outcome Descent)
    → ((c : CrushBucketStraw2) (ft fl : ℕ) (item : ℤ) (mem : Mem)
        → f c ft fl item mem ≡ g c ft fl item mem)
    → (b : CrushBucketStraw2) (ft fl : ℕ) (s : Turn)
    → after_turn f b ft fl s ≡ after_turn g b ft fl s
after_turn-cong f g h b ft fl (descend_into c item mem) = h c ft fl item mem
after_turn-cong f g h b ft fl (retry_bucket item mem) = h b (u32 (ft + 1)) (u32 (fl + 1)) item mem
after_turn-cong f g h b ft fl (retry_descent item mem) = refl
after_turn-cong f g h b ft fl (skip_rep item mem) = refl
after_turn-cong f g h b ft fl (take_item item mem) = refl

after_descent-cong :
    (f g : ℕ → ℤ → Mem → Outcome (Bool × ℤ × Mem))
    → ((ft : ℕ) (item : ℤ) (mem : Mem) → f ft item mem ≡ g ft item mem)
    → (d : Descent) → after_descent f d ≡ after_descent g d
after_descent-cong f g h (restart ft item mem) = h ft item mem
after_descent-cong f g h (given_up item mem) = refl
after_descent-cong f g h (chosen item mem) = refl

module _ (a : Attempt) (l : CrushBucketStraw2 → ℕ → Mem → Outcome (ℕ × Mem)) (dev : a.type ≡ 0)
    (t : IsTyped a.map) where
  try_bucket_same :
      (fuel : ℕ) (b : CrushBucketStraw2) (ft fl : ℕ) (item : ℤ) (mem : Mem)
      → try_bucket fuel (with_leaf a l) b ft fl item mem ≡ try_bucket fuel a b ft fl item mem
  unfolding try_bucket
  try_bucket_same zero b ft fl item mem = refl
  try_bucket_same (suc fuel) b ft fl item mem =
      >>=-cong (turn_same_leaf a l dev t b ft fl item mem) (
        after_turn-cong (try_bucket fuel (with_leaf a l)) (try_bucket fuel a) (try_bucket_same fuel)
          b ft fl)

  -- The recursive call is never made when devices are looked for.
  pub place_same_leaf :
      (outer inner ft : ℕ) (item : ℤ) (mem : Mem)
      → place outer inner (with_leaf a l) ft item mem ≡ place outer inner a ft item mem
  unfolding place
  place_same_leaf zero inner ft item mem = refl
  place_same_leaf (suc outer) inner ft item mem =
      >>=-cong (try_bucket_same inner a.bucket ft 0 item mem) (
        after_descent-cong (place outer inner (with_leaf a l)) (place outer inner a)
          (place_same_leaf outer inner))

-- The item left over from the replica before is never looked at.
pub place_same_item :
    (outer inner : ℕ) (a : Attempt) (ft : ℕ) (item other : ℤ) (mem : Mem)
    → a.bucket.h.size ≢ 0
    → place outer inner a ft item mem ≡ place outer inner a ft other mem
unfolding place try_bucket
place_same_item zero inner a ft item other mem nz = refl
place_same_item (suc outer) zero a ft item other mem nz = refl
place_same_item (suc outer) (suc inner) a ft item other mem nz =
    rw (turn_same_item a a.bucket ft 0 item other mem nz) refl
