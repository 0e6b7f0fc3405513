-- ===== src/Workers/Whole.antt =====
-- The workers one after the other return, also where a replica is given up.
use my_ceph.Common.{
  ℕ, suc, ◌+◌, ◌<◌, ◌≡◌, refl, sym, ◌∙◌, subst, arith, List, [], ◌∷◌, length, ok, ℤ, pos,
}
use my_ceph.CrushMap.{CrushBucketStraw2}
use my_ceph.Mapper.Memory.{Mem}
use my_ceph.Mapper.Memory.Shape.{shape, Room, write_total}
use my_ceph.Mapper.Turn.Same.{with_leaf}
use my_ceph.Mapper.Turn.Total.{CountsFit}
use my_ceph.Mapper.Loops.{Fuel}
use my_ceph.Mapper.Loops.Total.{place_total}
use my_ceph.Mapper.Loops.Same.{place_same_leaf}
use my_ceph.Workers.{
  FirstnInfo, Globals, worker_attempt, worker_place, do_work1, do_work2, do_work3, run_workers,
  wait_for_workers, pthread_crush_choose_firstn,
}
use my_ceph.Workers.Sequence.{at_position}
use my_ceph.Workers.Steps.{Worker, worker1, worker2, worker3, worker_number}
use my_ceph.Workers.Schedule.{IsReady, attempt_of, attempt_of-IsWorker, no_leaf}

-- Fuel for the loops of a worker, and so few turns that the counters do not wrap.
pub record IsFuelled (height : CrushBucketStraw2 → ℕ) (fuel : Fuel) (f : FirstnInfo) : Type 0 where
  pub inner : f.local_retries + height f.bucket < fuel.inner
  pub outer : f.tries < fuel.outer
  pub counts : CountsFit f.tries f.local_retries

module _ {height : CrushBucketStraw2 → ℕ} {sh : List ℕ} (fuel : Fuel) (g : Globals) (f : FirstnInfo)
    (r : IsReady height sh g f) (e : IsFuelled height fuel f) where
  worker_place_total :
      (w : Worker) (n : ℕ) (mem : Mem)
      → shape mem ≡ sh
      → (mem' : Mem) × (worker_place fuel g
            (record f { outpos = n })
            (worker_number w)
            (worker_number w)
            mem
          ≡ ok mem')
        × (shape mem' ≡ sh)
  unfolding worker_place worker_attempt
  worker_place_total w n mem s =
      let a = attempt_of fuel g f r w n in
      let i = attempt_of-IsWorker fuel g f r w n in
      let (p, item, m1, ep, s1) =
        place_total (with_leaf a (no_leaf fuel g f r)) i.set_up e.counts fuel.outer fuel.inner 0
          (pos 0) mem (omega arith) (omega (arith, e.outer)) e.inner r.top s in
      let same = sym (
        place_same_leaf a (no_leaf fuel g f r) r.devices (record { typed = r.tree.typed })
          fuel.outer fuel.inner 0 (pos 0) mem) in
      let (m2, ew, s2) =
        write_total m1 f.out (suc (worker_number w)) (worker_number w) item
          (subst (λ t. Room t f.out (suc (worker_number w))) (sym s1) i.room) (omega arith) in
      (m2, rw (same ∙ ep) ew, s2 ∙ s1)

  -- All three, one after the other.
  pub run_workers_total :
      (mem : Mem)
      → shape mem ≡ sh
      → (mem' : Mem) × (run_workers fuel g f mem
          ≡ ok (record f { outpos = f.outpos + 1 + 1 + 1 }, mem'))
        × (shape mem' ≡ sh)
  unfolding run_workers do_work1 do_work2 do_work3 worker_number
  run_workers_total mem s =
      let (m1, e1, s1) = worker_place_total worker1 f.outpos mem s in
      let (m2, e2, s2) = worker_place_total worker2 (f.outpos + 1) m1 s1 in
      let (m3, e3, s3) = worker_place_total worker3 (f.outpos + 1 + 1) m2 s2 in
      (m3, rw (e1, e2, e3) refl, s3)

-- An object with its new array.
pub pthread_crush_choose_firstn_total :
    {height : CrushBucketStraw2 → ℕ} (fuel : Fuel) (g : Globals) (garbage : List ℤ) (f : FirstnInfo)
    → IsReady height (length garbage ∷ []) g (at_position 0 f)
    → IsFuelled height fuel f
    → (mem : Mem) × (pthread_crush_choose_firstn fuel g garbage f ≡ ok (3, at_position 3 f, mem))
unfolding pthread_crush_choose_firstn wait_for_workers
pthread_crush_choose_firstn_total fuel g garbage f r e =
    let (mem, em, s) =
      run_workers_total fuel g (at_position 0 f) r
        (record { inner = e.inner; outer = e.outer; counts = e.counts }) (garbage ∷ []) refl in
    (mem, rw em refl)
