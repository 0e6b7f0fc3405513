-- ===== src/Tests/Schedule.antt =====
-- The workers on the map of `init2`, under a schedule that takes them in turn.
use my_ceph.Common.{ℤ, pos}
use my_ceph.Common.{ℕ, zero, suc, ◌≡◌, refl, arith, List, [], ◌∷◌, length-replicate, ok}
use my_ceph.Mapper.Memory.{Mem, Pointer, read}
use my_ceph.Build.{init2_reweight, osd_sum}
use my_ceph.Build.Check.{level}
use my_ceph.Build.Init2.{init2_map, init2-IsBuilt, init2-IsTuned}
use my_ceph.Drivers.Correct.{init2_fuel}
use my_ceph.Workers.{FirstnInfo, test_info, wait_for_workers}
use my_ceph.Workers.Sequence.{at_position}
use my_ceph.Workers.Steps.{
  finished, Worker, worker1, worker2, worker3, worker_number, System, phase_of, system_run,
  at_start, seen,
}
use my_ceph.Workers.Places.{all_done}
use my_ceph.Workers.Schedule.{IsReady}
use my_ceph.Workers.Reached.{occurrences, enough}
use my_ceph.Workers.Waits.{system_run_returns, system_run_ends, wait_for_workers-Settled}
use my_ceph.Workers.Confluent.{system_run_same_first}
use my_ceph.Tests.Run.{zeros}
use my_ceph.Tests.Workers.{globals, root}

unfoldable pub info : FirstnInfo
info = at_position 0 (test_info init2_map root init2_reweight 222)

unfoldable pub arrays : Mem
arrays = zeros ∷ []

pub info-IsReady : IsReady level (3 ∷ []) globals info
unfolding info test_info init2_reweight
info-IsReady = record {
  tree = init2-IsBuilt.tree;
  top = init2-IsBuilt.tree.nodes 0 root (init2-IsTuned).1.root_at;
  weights = omega (arith, length-replicate {A = ℕ} osd_sum 65536);
  no_args = refl;
  no_fallback = (init2-IsTuned).1.fallback_tries;
  devices = refl;
  room = (3, refl, omega arith);
  room2 = λ nz. (3, refl, omega arith);
}

round_robin : ℕ → List Worker
round_robin zero = []
round_robin (suc n) = worker1 ∷ worker2 ∷ worker3 ∷ round_robin n

occurrences-round_robin : (w : Worker) (n : ℕ) → occurrences w (round_robin n) ≡ n
unfolding occurrences round_robin worker_number
occurrences-round_robin w zero = refl
occurrences-round_robin worker1 (suc n) = omega (arith, occurrences-round_robin worker1 n)
occurrences-round_robin worker2 (suc n) = omega (arith, occurrences-round_robin worker2 n)
occurrences-round_robin worker3 (suc n) = omega (arith, occurrences-round_robin worker3 n)

system_run_returns_example :
    (s : System) × (system_run init2_fuel globals info
        (worker2 ∷ worker1 ∷ worker2 ∷ [])
        (at_start info arrays)
      ≡ ok s)
    × (s.outpos ≡ all_done s)
unfolding info arrays test_info
system_run_returns_example =
    system_run_returns init2_fuel globals info (worker2 ∷ worker1 ∷ worker2 ∷ []) arrays
      info-IsReady refl refl

system_run_ends_example :
    (s : System) × (system_run init2_fuel globals info
        (round_robin (enough level info))
        (at_start info arrays)
      ≡ ok s)
    × ((w : Worker) → phase_of w s ≡ finished)
    × (wait_for_workers (seen info s) ≡ ok 3)
unfolding info arrays test_info
system_run_ends_example =
    system_run_ends init2_fuel globals info (round_robin (enough level info)) arrays info-IsReady
      refl refl (omega (arith, (init2-IsTuned).1.tries, (init2-IsTuned).1.local_tries))
      (λ w. omega (arith, occurrences-round_robin w (enough level info)))

done_state : System
done_state = system_run_ends_example.0

wait_for_workers-Settled_example :
    ((w : Worker) → phase_of w done_state ≡ finished)
    × (s' : System) × (system_run init2_fuel globals info (worker3 ∷ []) done_state ≡ ok s')
    × ((w : Worker) (p : Pointer)
        → read s'.mem p (worker_number w) ≡ read done_state.mem p (worker_number w))
unfolding info arrays test_info done_state
wait_for_workers-Settled_example =
    wait_for_workers-Settled init2_fuel globals info (round_robin (enough level info))
      (worker3 ∷ []) arrays done_state info-IsReady refl refl system_run_ends_example.1
      system_run_ends_example.3

-- Another order, over an array that holds other items.
reversed : ℕ → List Worker
reversed zero = []
reversed (suc n) = worker3 ∷ worker2 ∷ worker1 ∷ reversed n

occurrences-reversed : (w : Worker) (n : ℕ) → occurrences w (reversed n) ≡ n
unfolding occurrences reversed worker_number
occurrences-reversed w zero = refl
occurrences-reversed worker1 (suc n) = omega (arith, occurrences-reversed worker1 n)
occurrences-reversed worker2 (suc n) = omega (arith, occurrences-reversed worker2 n)
occurrences-reversed worker3 (suc n) = omega (arith, occurrences-reversed worker3 n)

others : Mem
others = (pos 7 ∷ pos 8 ∷ pos 9 ∷ []) ∷ []

other_run :
    (s : System) × (system_run init2_fuel globals info
        (reversed (enough level info))
        (at_start info others)
      ≡ ok s)
    × ((w : Worker) → phase_of w s ≡ finished)
    × (wait_for_workers (seen info s) ≡ ok 3)
unfolding info others test_info
other_run =
    system_run_ends init2_fuel globals info (reversed (enough level info)) others info-IsReady refl
      refl (omega (arith, (init2-IsTuned).1.tries, (init2-IsTuned).1.local_tries))
      (λ w. omega (arith, occurrences-reversed w (enough level info)))

system_run_same_first_example :
    (item : ℤ) × (read done_state.mem info.out 0 ≡ ok item)
    × (read other_run.0.mem info.out 0 ≡ ok item)
unfolding info arrays others test_info done_state
system_run_same_first_example =
    system_run_same_first init2_fuel globals info (round_robin (enough level info))
      (reversed (enough level info)) arrays others done_state other_run.0 info-IsReady refl refl
      refl system_run_ends_example.1 other_run.1 (system_run_ends_example.2 worker1)
      (other_run.2 worker1)
