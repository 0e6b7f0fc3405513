-- ===== src/Workers/Waits.antt =====
-- What the caller that waits for the three workers can rely on, whatever their schedule.
use my_ceph.Common.{
  ℕ, ◌≤◌, ◌==◌, ◌≡◌, inl, inr, refl, sym, ◌∙◌, subst, arith, Bool-cases, List, ok, ok-inj,
}
use my_ceph.CrushMap.{CrushBucketStraw2}
use my_ceph.Mapper.Memory.{Mem, Pointer, read}
use my_ceph.Mapper.Memory.Shape.{shape}
use my_ceph.Mapper.Turn.Total.{CountsFit}
use my_ceph.Mapper.Loops.{Fuel}
use my_ceph.Workers.{FirstnInfo, Globals, wait_for_workers}
use my_ceph.Workers.Steps.{
  finished, Worker, worker_number, System, phase_of, system_run, at_start, seen,
}
use my_ceph.Workers.Places.{all_done}
use my_ceph.Workers.Schedule.{IsReady, IsRunning}
use my_ceph.Workers.Reached.{
  occurrences, enough, finished_of, system_run-Runs, at_start-IsRunning, at_start-IsCounted,
  all_finished, three_done, distance-at_start,
}

-- On a hierarchy in which devices are looked for, without `choose_args` and fallback retries, with
-- arrays that have room for three, every schedule of the workers returns: no step reads or writes
-- outside an array. Then `outpos` is the number of workers that are done.
pub system_run_returns :
    {height : CrushBucketStraw2 → ℕ} {sh : List ℕ} (fuel : Fuel) (g : Globals) (f : FirstnInfo)
    (ws : List Worker) (mem : Mem)
    → IsReady height sh g f
    → f.outpos ≡ 0
    → shape mem ≡ sh
    → (s : System) × (system_run fuel g f ws (at_start f mem) ≡ ok s) × (s.outpos ≡ all_done s)
system_run_returns fuel g f ws mem r z e =
    let run =
      system_run-Runs fuel g f r ws (at_start f mem) (at_start-IsRunning fuel g f r mem z e) in
    (run.last, run.returned, run.running.count)

-- On a hierarchy in which devices are looked for, without `choose_args` and fallback retries, with arrays
-- that have room for three, and with so few tries and local retries that the counters do not wrap: a
-- schedule with `enough` steps of each worker, in any order and with any further steps, brings all
-- three to their end, and then `wait_for_workers` ends with 3.
pub system_run_ends :
    {height : CrushBucketStraw2 → ℕ} {sh : List ℕ} (fuel : Fuel) (g : Globals) (f : FirstnInfo)
    (ws : List Worker) (mem : Mem)
    → IsReady height sh g f
    → f.outpos ≡ 0
    → shape mem ≡ sh
    → CountsFit f.tries f.local_retries
    → ((w : Worker) → enough height f ≤ occurrences w ws)
    → (s : System) × (system_run fuel g f ws (at_start f mem) ≡ ok s)
      × ((w : Worker) → phase_of w s ≡ finished)
      × (wait_for_workers (seen f s) ≡ ok 3)
unfolding wait_for_workers
system_run_ends {height} fuel g f ws mem r z e fit fair =
    let run =
      system_run-Runs fuel g f r ws (at_start f mem) (at_start-IsRunning fuel g f r mem z e) in
    let fin = λ (w : Worker).
      finished_of height f.tries f.local_retries f.bucket (phase_of w run.last) (
        omega (
          arith,
          run.nearer (at_start-IsCounted fuel g f r mem fit) w,
          distance-at_start fuel g f r w mem,
          fair w,
        )) in
    (run.last, run.returned, fin, rw (three_done fuel g f r run.last run.running fin) refl)

waited : (f : FirstnInfo) (s : System) → wait_for_workers (seen f s) ≡ ok 3 → s.outpos ≡ 3
unfolding wait_for_workers
waited f s h = elim (Bool-cases (s.outpos == 3)) [
  | inl t ↦ ground arith
  | inr n ↦ absurd (cc (rw n at h))
]

-- On a hierarchy in which devices are looked for, without `choose_args` and fallback retries, with
-- arrays that have room for three: if `wait_for_workers` ends in a state that a schedule of the
-- workers leads to, then all three are done, and every further schedule returns with the same three
-- entries in each array.
pub wait_for_workers-Settled :
    {height : CrushBucketStraw2 → ℕ} {sh : List ℕ} (fuel : Fuel) (g : Globals) (f : FirstnInfo)
    (ws later : List Worker) (mem : Mem) (s : System)
    → IsReady height sh g f
    → f.outpos ≡ 0
    → shape mem ≡ sh
    → system_run fuel g f ws (at_start f mem) ≡ ok s
    → wait_for_workers (seen f s) ≡ ok 3
    → ((w : Worker) → phase_of w s ≡ finished)
      × (s' : System) × (system_run fuel g f later s ≡ ok s')
      × ((w : Worker) (p : Pointer)
          → read s'.mem p (worker_number w) ≡ read s.mem p (worker_number w))
wait_for_workers-Settled fuel g f ws later mem s r z e h h3 =
    let run =
      system_run-Runs fuel g f r ws (at_start f mem) (at_start-IsRunning fuel g f r mem z e) in
    let running = subst (IsRunning _ _ f) (ok-inj (sym run.returned ∙ h)) run.running in
    let fin = all_finished fuel g f r s running (waited f s h3) in
    let behind = system_run-Runs fuel g f r later s running in
    (fin, behind.last, behind.returned, λ w p. behind.stays w (fin w) p)
