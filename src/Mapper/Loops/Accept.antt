-- ===== src/Mapper/Loops/Accept.antt =====
-- The loops of one replica keep the results so far, and end with an item that is fit and new.
use my_ceph.Common.{
  u32, ℕ, zero, suc, ◌+◌, ◌≡◌, sym, ◌∙◌, subst, Bool, true, false, ℤ, Outcome, ok, >>=-eq-ok,
  ok-inj,
}
use my_ceph.CrushMap.{CrushBucketStraw2}
use my_ceph.Mapper.Memory.{Mem, Keeps, Keeps-trans}
use my_ceph.Mapper.Turn.{
  Attempt, Turn, descend_into, retry_bucket, retry_descent, skip_rep, take_item, turn,
}
use my_ceph.Mapper.Turn.Accept.{IsFit, IsNew, Turned, LeafKeeps, turn-Turned}
use my_ceph.Mapper.Loops.{Descent, restart, given_up, chosen, try_bucket, place}

abbrev pub end_mem : Descent → Mem
end_mem (restart ft item mem) = mem
end_mem (given_up item mem) = mem
end_mem (chosen item mem) = mem

abbrev OnChosen : (ℤ → Mem → Type 0) → Descent → Type 0
OnChosen P (chosen item mem) = P item mem
OnChosen P _ = Unit {0}

-- The item of a descent is fit, and new among the results behind it.
record Descended (a : Attempt) (mem : Mem) (d : Descent) : Type 0 where
  keeps : Keeps a.outpos mem (end_mem d)
  taken : OnChosen (λ item mem'. IsFit a item × IsNew a mem' item) d

IsNew-Keeps :
    {a : Attempt} {mem mem' : Mem} {item : ℤ}
    → Keeps a.outpos mem mem'
    → IsNew a mem item
    → IsNew a mem' item
IsNew-Keeps {a} k n = record { differs = λ j h e. n.differs j h (sym (k.same a.out j h) ∙ e) }

-- A descent that goes on from arrays that keep the results.
from_here :
    {a : Attempt} {mem mem' : Mem} {d : Descent}
    → Keeps a.outpos mem mem'
    → Descended a mem' d
    → Descended a mem d
from_here k d = record { keeps = Keeps-trans k d.keeps; taken = d.taken }

-- What a replica ends with: was it placed, its item, and the arrays.
pub record Placed (a : Attempt) (mem : Mem) (placed : Bool) (item : ℤ) (mem' : Mem) : Type 0 where
  pub keeps : Keeps a.outpos mem mem'
  pub fit : placed ≡ true → IsFit a item
  pub new : placed ≡ true → IsNew a mem' item

module _ (a : Attempt) (leaf_keeps : LeafKeeps a) where
  try_bucket-Descended :
      (fuel : ℕ) (b : CrushBucketStraw2) (ft fl : ℕ) (item : ℤ) (mem : Mem) (d : Descent)
      → try_bucket fuel a b ft fl item mem ≡ ok d
      → Descended a mem d
  unfolding try_bucket
  try_bucket-Descended zero b ft fl item mem d h = absurd (cc)
  try_bucket-Descended (suc fuel) b ft fl item mem d h =
      let (t, et, k) = >>=-eq-ok (turn a b ft fl item mem) _ h in
      after (try_bucket-Descended fuel) t (turn-Turned a leaf_keeps b ft fl item mem et) k
    where
      Rest : Type 0
      Rest =
          (b' : CrushBucketStraw2) (ft' fl' : ℕ) (item' : ℤ) (mem' : Mem) (d' : Descent)
          → try_bucket fuel a b' ft' fl' item' mem' ≡ ok d'
          → Descended a mem' d'

      after :
          Rest
          → (t : Turn) → Turned a mem t
          → (elim t [
            | descend_into b' item' mem' ↦ try_bucket fuel a b' ft fl item' mem'
            | retry_bucket item' mem' ↦ try_bucket fuel a b (u32 (ft + 1)) (u32 (fl + 1)) item' mem'
            | retry_descent item' mem' ↦ ok (restart (u32 (ft + 1)) item' mem')
            | skip_rep item' mem' ↦ ok (given_up item' mem')
            | take_item item' mem' ↦ ok (chosen item' mem')
          ])
            ≡ ok d
          → Descended a mem d
      after rest (descend_into b' item' mem') w k = from_here w.keeps (rest b' ft fl item' mem' d k)
      after rest (retry_bucket item' mem') w k =
          from_here w.keeps (rest b (u32 (ft + 1)) (u32 (fl + 1)) item' mem' d k)
      after rest (retry_descent item' mem') w k =
          subst (Descended a mem) (ok-inj k) (record { keeps = w.keeps; taken = tt })
      after rest (skip_rep item' mem') w k =
          subst (Descended a mem) (ok-inj k) (record { keeps = w.keeps; taken = tt })
      after rest (take_item item' mem') w k =
          subst (Descended a mem) (ok-inj k)
            (record { keeps = w.keeps; taken = (w.taken.0, IsNew-Keeps w.keeps w.taken.1) })

  -- A replica keeps the results so far; if it is placed, its item is fit and new.
  pub place-Placed :
      (outer inner ft : ℕ) (item : ℤ) (mem : Mem) (placed : Bool) (item' : ℤ) (mem' : Mem)
      → place outer inner a ft item mem ≡ ok (placed, item', mem')
      → Placed a mem placed item' mem'
  unfolding place
  place-Placed zero inner ft item mem placed item' mem' h = absurd (cc)
  place-Placed (suc outer) inner ft item mem placed item' mem' h =
      let (d, ed, k) = >>=-eq-ok (try_bucket inner a a.bucket ft 0 item mem) _ h in
      after (place-Placed outer inner) d (try_bucket-Descended inner a.bucket ft 0 item mem d ed) k
    where
      Rest : Type 0
      Rest =
          (ft : ℕ) (item : ℤ) (mem : Mem) (p : Bool) (i : ℤ) (m : Mem)
          → place outer inner a ft item mem ≡ ok (p, i, m)
          → Placed a mem p i m

      -- A result that is written out is the result that is named.
      same :
          (p : Bool) (i : ℤ) (m : Mem)
          → Placed a mem p i m
          → ◌≡◌ {A = Outcome (Bool × ℤ × Mem)} (ok (p, i, m)) (ok (placed, item', mem'))
          → Placed a mem placed item' mem'
      same p i m w e = subst (λ (r : Bool × ℤ × Mem). Placed a mem r.0 r.1 r.2) (ok-inj e) w

      after :
          Rest
          → (d : Descent) → Descended a mem d
          → (elim d [
            | restart ft' item'' mem'' ↦ place outer inner a ft' item'' mem''
            | given_up item'' mem'' ↦ ok (false, item'', mem'')
            | chosen item'' mem'' ↦ ok (true, item'', mem'')
          ])
            ≡ ok (placed, item', mem')
          → Placed a mem placed item' mem'
      after rest (restart ft' i m) w k =
          let q = rest ft' i m placed item' mem' k in
          record { keeps = Keeps-trans w.keeps q.keeps; fit = q.fit; new = q.new }
      after rest (given_up i m) w k =
          same false i m
            (record { keeps = w.keeps; fit = λ e. absurd (cc); new = λ e. absurd (cc) }) k
      after rest (chosen i m) w k =
          same true i m (record { keeps = w.keeps; fit = λ e. w.taken.0; new = λ e. w.taken.1 }) k
