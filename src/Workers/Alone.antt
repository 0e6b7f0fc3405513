-- ===== src/Workers/Alone.antt =====
-- The steps of a worker that no other comes between are those of the loops that `Mapper.Loops` models.
use my_ceph.Common.{
  ℕ, zero, suc, ◌+◌, ◌==◌, ◌≡◌, refl, ap, subst, Bool, true, false, not, ◌&&◌, ◌||◌, inl, inr,
  if◌then◌else◌, Bool-cases, u32, ok, ok-inj, >>=-eq-ok, ◌>>=◌, ℤ, ltb_ℤ,
}
use my_ceph.CrushMap.{CrushBucketStraw2}
use my_ceph.Straw.{crush_bucket_choose}
use my_ceph.Mapper.Memory.{Mem}
use my_ceph.Mapper.Turn.{
  Attempt, Turn, descend_into, retry_bucket, retry_descent, skip_rep, take_item, is_out, item_type,
  choose_arg_of, collides, on_reject, leaf_step, turn_found, turn_item, turn,
}
use my_ceph.Mapper.Loops.{Descent, restart, given_up, chosen, try_bucket, place}
use my_ceph.Workers.Steps.{
  Phase, descends, compares, notes, writes, go_on, judge, classify, worker_step,
}
use my_ceph.Workers.Progress.{done_next}

-- The steps of a worker, up to one that writes its entry.
pub data Reaches (a : Attempt) : Phase × Mem → Phase × Mem → Type 0 where
  here : {s : Phase × Mem} → Reaches a s s
  step :
      {p : Phase} {mem : Mem} {s t : Phase × Mem}
      → done_next p ≡ 0
      → worker_step a p mem ≡ ok s
      → Reaches a s t
      → Reaches a (p, mem) t

pub Reaches-trans :
    {a : Attempt} {s t u : Phase × Mem} → Reaches a s t → Reaches a t u → Reaches a s u
Reaches-trans here k = k
Reaches-trans (step z e h) k = step z e (Reaches-trans h k)

module _ (a : Attempt) where
  -- One step to where the turn leads.
  once :
      (p : Phase) (mem : Mem) {t : Phase × Mem}
      → done_next p ≡ 0
      → worker_step a p mem ≡ ok t
      → Reaches a (p, mem) t
  once p mem z e = step z e here

  judged :
      (b : CrushBucketStraw2) (ty ft fl : ℕ) (item : ℤ) (collide reject : Bool) (mem : Mem)
      (t : Turn)
      → ((if not reject && not collide && ty == 0
            then is_out a.weight a.weight_max item a.x
            else ok reject)
          >>= λ reject'. ok (
              if reject' || collide
              then on_reject a b collide (u32 (ft + 1)) (u32 (fl + 1)) item mem
              else take_item item mem))
        ≡ ok t
      → judge a b ty ft fl item collide reject mem ≡ ok (go_on a b ft fl t)
  unfolding judge
  judged b ty ft fl item collide reject mem t h =
      let (reject', er, k) =
        >>=-eq-ok
          (if not reject && not collide && ty == 0
            then is_out a.weight a.weight_max item a.x
            else ok reject)
          _ h in
      rw er (ap (λ (u : Turn). ok (go_on a b ft fl u)) (ok-inj k))

  found_Reaches :
      (b : CrushBucketStraw2) (ty r ft fl : ℕ) (item : ℤ) (mem : Mem) (t : Turn)
      → turn_found a b ty r ft fl item mem ≡ ok t
      → Reaches a (compares b ty r ft fl item, mem) (go_on a b ft fl t)
  unfolding turn_found worker_step
  found_Reaches b ty r ft fl item mem t h =
      let (collide, ec, h1) = >>=-eq-ok (collides mem a.out a.outpos 0 item) _ h in
      elim (Bool-cases (not collide && not (a.recurse_to_leaf == 0))) [
        | inl noted ↦
            let ((reject, mem1), el, h2) = >>=-eq-ok (leaf_step a item r mem) _ (rw noted at h1) in
            Reaches-trans (once (compares b ty r ft fl item) mem refl (rw (ec, noted) refl)) (
              once (notes b ty r ft fl item) mem refl (
                rw el (
                  judged b ty ft fl item false reject mem1 t
                    (rw (no_collision collide noted) at h2))))
        | inr direct ↦
            once (compares b ty r ft fl item) mem refl
              (rw (ec, direct) (judged b ty ft fl item collide false mem t (rw direct at h1)))
      ]
    where
      no_collision : (c : Bool) → (not c && not (a.recurse_to_leaf == 0)) ≡ true → c ≡ false
      no_collision true h = cc
      no_collision false h = refl

  item_Reaches :
      (b : CrushBucketStraw2) (r ft fl : ℕ) (item : ℤ) (mem : Mem) (t : Turn)
      → turn_item a b r ft fl item mem ≡ ok t
      → (s : Phase × Mem) × (classify a b r ft fl item mem ≡ ok s) × Reaches a s (go_on a b ft fl t)
  unfolding turn_item classify
  item_Reaches b r ft fl item mem t h = elim (Bool-cases (ltb_ℤ item a.map.max_devices)) [
    | inl lt ↦
        let (ty, ei, k) = >>=-eq-ok (item_type a.map item) _ (rw lt at h) in
        elim (Bool-cases (ty == a.type)) [
          | inl same ↦ (
            (compares b ty r ft fl item, mem),
            rw (lt, ei, same) refl,
            found_Reaches b ty r ft fl item mem t (rw same at k),
          )
          | inr other ↦ (go_on a b ft fl t, rw (lt, ei, other, (rw other at k)) refl, here)
        ]
    | inr ge ↦ (
      go_on a b ft fl t,
      rw ge (ap (λ (u : Turn). ok (go_on a b ft fl u)) (ok-inj (rw ge at h))),
      here,
    )
  ]

  -- A turn of the inner loop is a step to the lock of the collision loop and the steps behind it.
  turn-Reaches :
      (b : CrushBucketStraw2) (ft fl : ℕ) (item : ℤ) (mem : Mem) (t : Turn)
      → turn a b ft fl item mem ≡ ok t
      → Reaches a (descends b ft fl item, mem) (go_on a b ft fl t)
  unfolding turn worker_step
  turn-Reaches b ft fl item mem t h = elim (Bool-cases (b.h.size == 0)) [
    | inl empty ↦
        once (descends b ft fl item) mem refl
          (rw empty (ap (λ (u : Turn). ok (go_on a b ft fl u)) (ok-inj (rw empty at h))))
    | inr filled ↦
        let (arg, ea, k) = >>=-eq-ok (choose_arg_of a.choose_args b.h.id) _ (rw filled at h) in
        let (item', ec, k') =
          >>=-eq-ok (crush_bucket_choose b a.x (u32 (a.r0 + ft)) arg a.position) _ k in
        let (s, es, r) = item_Reaches b (u32 (a.r0 + ft)) ft fl item' mem t k' in
        Reaches-trans (once (descends b ft fl item) mem refl (rw (filled, ea, ec) es)) r
  ]

  -- Where a descent leads.
  abbrev end_of : Descent → Phase × Mem
  end_of (restart ft item mem) = (descends a.bucket ft 0 item, mem)
  end_of (given_up item mem) = (writes item, mem)
  end_of (chosen item mem) = (writes item, mem)

  try_bucket-Reaches :
      (fuel : ℕ) (b : CrushBucketStraw2) (ft fl : ℕ) (item : ℤ) (mem : Mem) (d : Descent)
      → try_bucket fuel a b ft fl item mem ≡ ok d
      → Reaches a (descends b ft fl item, mem) (end_of d)
  unfolding try_bucket go_on
  try_bucket-Reaches zero b ft fl item mem d h = absurd (cc)
  try_bucket-Reaches (suc fuel) b ft fl item mem d h =
      let (t, et, k) = >>=-eq-ok (turn a b ft fl item mem) _ h in
      Reaches-trans (turn-Reaches b ft fl item mem t et) (after (try_bucket-Reaches fuel) t k)
    where
      Rest : Type 0
      Rest =
          (b' : CrushBucketStraw2) (ft' fl' : ℕ) (item' : ℤ) (mem' : Mem) (d' : Descent)
          → try_bucket fuel a b' ft' fl' item' mem' ≡ ok d'
          → Reaches a (descends b' ft' fl' item', mem') (end_of d')

      after :
          Rest
          → (t : Turn)
          → (elim t [
            | descend_into b' item' mem' ↦ try_bucket fuel a b' ft fl item' mem'
            | retry_bucket item' mem' ↦ try_bucket fuel a b (u32 (ft + 1)) (u32 (fl + 1)) item' mem'
            | retry_descent item' mem' ↦ ok (restart (u32 (ft + 1)) item' mem')
            | skip_rep item' mem' ↦ ok (given_up item' mem')
            | take_item item' mem' ↦ ok (chosen item' mem')
          ])
            ≡ ok d
          → Reaches a (go_on a b ft fl t) (end_of d)
      after rest (descend_into b' item' mem') k = rest b' ft fl item' mem' d k
      after rest (retry_bucket item' mem') k = rest b (u32 (ft + 1)) (u32 (fl + 1)) item' mem' d k
      after rest (retry_descent item' mem') k = subst (Reaches a _) (ap end_of (ok-inj k)) here
      after rest (skip_rep item' mem') k = subst (Reaches a _) (ap end_of (ok-inj k)) here
      after rest (take_item item' mem') k = subst (Reaches a _) (ap end_of (ok-inj k)) here

  -- The loops of a worker lead to the phase that writes their item.
  pub place-Reaches :
      (outer inner ft : ℕ) (item : ℤ) (mem : Mem) (r : Bool × ℤ × Mem)
      → place outer inner a ft item mem ≡ ok r
      → Reaches a (descends a.bucket ft 0 item, mem) (writes r.1, r.2)
  unfolding place
  place-Reaches zero inner ft item mem r h = absurd (cc)
  place-Reaches (suc outer) inner ft item mem r h =
      let (d, ed, k) = >>=-eq-ok (try_bucket inner a a.bucket ft 0 item mem) _ h in
      Reaches-trans (try_bucket-Reaches inner a.bucket ft 0 item mem d ed)
        (after (place-Reaches outer) d k)
    where
      Rest : Type 0
      Rest =
          (inner ft : ℕ) (item : ℤ) (mem : Mem) (r : Bool × ℤ × Mem)
          → place outer inner a ft item mem ≡ ok r
          → Reaches a (descends a.bucket ft 0 item, mem) (writes r.1, r.2)

      after :
          Rest
          → (d : Descent)
          → (elim d [
            | restart ft' item' mem' ↦ place outer inner a ft' item' mem'
            | given_up item' mem' ↦ ok (false, item', mem')
            | chosen item' mem' ↦ ok (true, item', mem')
          ])
            ≡ ok r
          → Reaches a (end_of d) (writes r.1, r.2)
      after rest (restart ft' item' mem') k = rest inner ft' item' mem' r k
      after rest (given_up item' mem') k =
          subst (λ (q : Bool × ℤ × Mem). Reaches a (writes item', mem') (writes q.1, q.2))
            (ok-inj k) here
      after rest (chosen item' mem') k =
          subst (λ (q : Bool × ℤ × Mem). Reaches a (writes item', mem') (writes q.1, q.2))
            (ok-inj k) here
