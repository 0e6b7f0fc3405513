-- ===== src/Workers/Steps.antt =====
-- CRUSH_Research/main.cpp: the bodies of `do_work1` to `do_work3`, cut where a worker touches what the
-- others write. A step is either the choice of an item, which touches no array, or one critical
-- section with what the worker computes by itself behind it, the recursive call for a bucket included;
-- a schedule says whose step is next.
use my_ceph.Common.{
  ℕ, ◌+◌, ◌==◌, ◌&&◌, ◌||◌, not, if◌then◌else◌, Bool, false, List, [], ◌∷◌, u32, ℤ, pos, ltb_ℤ,
  Outcome, ok, ◌>>=◌,
}
use my_ceph.CrushMap.{CrushBucketStraw2}
use my_ceph.Straw.{crush_bucket_choose}
use my_ceph.Mapper.Memory.{Mem, write}
use my_ceph.Mapper.Turn.{
  Attempt, Turn, descend_into, retry_bucket, retry_descent, skip_rep, take_item, is_out, item_type,
  choose_arg_of, collides, on_reject, leaf_step, turn_inner,
}
use my_ceph.Mapper.Loops.{Fuel}
use my_ceph.Workers.{FirstnInfo, Globals, worker_attempt}

-- Where a worker stands: at the head of the inner loop, with `in`, the counters and the last item;
-- before the lock of the collision loop, with an item of the wanted type and the random number too;
-- before the lock behind which it notes the item; before the last lock; and at its end.
pub data Phase : Type 0 where
  descends : CrushBucketStraw2 → ℕ → ℕ → ℤ → Phase
  compares : CrushBucketStraw2 → ℕ → ℕ → ℕ → ℕ → ℤ → Phase
  notes : CrushBucketStraw2 → ℕ → ℕ → ℕ → ℕ → ℤ → Phase
  writes : ℤ → Phase
  finished : Phase

-- How a worker goes on behind a turn of its inner loop.
unfoldable pub go_on : Attempt → CrushBucketStraw2 → ℕ → ℕ → Turn → Phase × Mem
go_on a in_bucket ftotal flocal (descend_into b item mem) = (descends b ftotal flocal item, mem)
go_on a in_bucket ftotal flocal (retry_bucket item mem) =
    (descends in_bucket (u32 (ftotal + 1)) (u32 (flocal + 1)) item, mem)
go_on a in_bucket ftotal flocal (retry_descent item mem) =
    (descends a.bucket (u32 (ftotal + 1)) 0 item, mem)
go_on a in_bucket ftotal flocal (skip_rep item mem) = (writes item, mem)
go_on a in_bucket ftotal flocal (take_item item mem) = (writes item, mem)

-- From the test of the device on, up to the end of the turn.
unfoldable pub judge :
    Attempt → CrushBucketStraw2 → ℕ → ℕ → ℕ → ℤ → Bool → Bool → Mem → Outcome (Phase × Mem)
unfolding go_on
judge a in_bucket itemtype ftotal flocal item collide reject mem = do
  reject' ←
      (if not reject && not collide && itemtype == 0
        then is_out a.weight a.weight_max item a.x
        else ok reject)
  ok (
      go_on a in_bucket ftotal flocal (
        if reject' || collide
        then on_reject a in_bucket collide (u32 (ftotal + 1)) (u32 (flocal + 1)) item mem
        else take_item item mem))

-- The chosen item: of the wanted type, of another, or none that is known.
unfoldable pub classify : Attempt → CrushBucketStraw2 → ℕ → ℕ → ℕ → ℤ → Mem → Outcome (Phase × Mem)
unfolding go_on
classify a in_bucket r ftotal flocal item mem =
    if ltb_ℤ item a.map.max_devices
    then (do
      itemtype ← item_type a.map item
      if itemtype == a.type
          then ok (compares in_bucket itemtype r ftotal flocal item, mem)
          else (do t ← turn_inner a item mem; ok (go_on a in_bucket ftotal flocal t)))
    else ok (writes item, mem)

-- A step of a worker.
unfoldable pub worker_step : Attempt → Phase → Mem → Outcome (Phase × Mem)
unfolding go_on judge classify
worker_step a (descends in_bucket ftotal flocal item) mem =
    if in_bucket.h.size == 0
    then ok (
        go_on a in_bucket ftotal flocal
          (on_reject a in_bucket false (u32 (ftotal + 1)) (u32 (flocal + 1)) item mem))
    else (do
      arg ← choose_arg_of a.choose_args in_bucket.h.id
      let r = u32 (a.r0 + ftotal)
      chosen ← crush_bucket_choose in_bucket a.x r arg a.position
      classify a in_bucket r ftotal flocal chosen mem)
worker_step a (compares in_bucket itemtype r ftotal flocal item) mem = do
  collide ← collides mem a.out a.outpos 0 item
  if not collide && not (a.recurse_to_leaf == 0)
      then ok (notes in_bucket itemtype r ftotal flocal item, mem)
      else judge a in_bucket itemtype ftotal flocal item collide false mem
worker_step a (notes in_bucket itemtype r ftotal flocal item) mem = do
  (reject, mem') ← leaf_step a item r mem
  judge a in_bucket itemtype ftotal flocal item false reject mem'
worker_step a (writes item) mem = do mem' ← write mem a.out a.outpos item; ok (finished, mem')
worker_step a finished mem = ok (finished, mem)

pub data Worker : Type 0 where
  worker1 : Worker
  worker2 : Worker
  worker3 : Worker

-- The number that `do_work1` to `do_work3` set `parent_r` and `outpos` to.
unfoldable pub worker_number : Worker → ℕ
worker_number worker1 = 0
worker_number worker2 = 1
worker_number worker3 = 2

-- What the three workers of an object share, and where each stands.
pub record System : Type 0 where
  pub outpos : ℕ
  pub mem : Mem
  pub phase1 : Phase
  pub phase2 : Phase
  pub phase3 : Phase

unfoldable pub phase_of : Worker → System → Phase
phase_of worker1 s = s.phase1
phase_of worker2 s = s.phase2
phase_of worker3 s = s.phase3

unfoldable pub with_phase : Worker → Phase → System → System
with_phase worker1 p s = record s { phase1 = p }
with_phase worker2 p s = record s { phase2 = p }
with_phase worker3 p s = record s { phase3 = p }

-- `firstn->outpos++` stands behind the last write.
unfoldable pub counted : Phase → ℕ → ℕ
counted (descends b ftotal flocal item) outpos = outpos
counted (compares b itemtype r ftotal flocal item) outpos = outpos
counted (notes b itemtype r ftotal flocal item) outpos = outpos
counted (writes item) outpos = outpos + 1
counted finished outpos = outpos

unfoldable pub system_step : Fuel → Globals → FirstnInfo → Worker → System → Outcome System
unfolding worker_step worker_number phase_of with_phase counted
system_step fuel g f w s = do
  (p, mem) ←
      worker_step
        (worker_attempt fuel g (record f { outpos = s.outpos }) (worker_number w) (worker_number w))
        (phase_of w s) s.mem
  ok (with_phase w p (record s { outpos = counted (phase_of w s) s.outpos; mem = mem }))

-- The steps that a schedule names, one after the other.
unfoldable pub system_run : Fuel → Globals → FirstnInfo → List Worker → System → Outcome System
unfolding system_step
system_run fuel g f [] s = ok s
system_run fuel g f (w ∷ ws) s = do s' ← system_step fuel g f w s; system_run fuel g f ws s'

-- Before the first step of each worker.
unfoldable pub at_start : FirstnInfo → Mem → System
at_start f mem = record {
  outpos = f.outpos;
  mem = mem;
  phase1 = descends f.bucket 0 0 (pos 0);
  phase2 = descends f.bucket 0 0 (pos 0);
  phase3 = descends f.bucket 0 0 (pos 0);
}

-- The shared structure as the caller, which waits, sees it.
abbrev pub seen : FirstnInfo → System → FirstnInfo
seen f s = record f { outpos = s.outpos }
