-- ===== src/Tests/Crew.antt =====
-- A pool with two threads and a ring of two: one thread waits, the other is in a task.
use my_ceph.Common.{
  ℕ, zero, suc, ◌+◌, ◌<◌, ◌≡◌, ◌≢◌, refl, arith, List, [], ◌∷◌, get_elem?, false, ◌++◌, some, map,
  ok, ◌>>=◌,
}
use my_ceph.ThreadPool.{
  Task, ThreadPool, thread_pool_create, start_threads, store_id, worker_take, worker_woken,
  thread_pool_add, thread_exit, free_slot,
}
use my_ceph.ThreadPool.Ring.{slot}
use my_ceph.ThreadPool.Fifo.{Holds}
use my_ceph.ThreadPool.Threads.{count_live}
use my_ceph.ThreadPool.Crew.{
  waits, woken, has_task, runs, gone, Thread, Crew, Action, moves, adds, grows, shrinks,
  create_crew, crew_run, crew_step, move_thread, thread_step, look, after_look, wake, after_client,
  rouse_at, rouse_first, is_waiting, ended_by, new_threads,
}
use my_ceph.ThreadPool.Crew.Alert.{work_left, keeps_threads}
use my_ceph.ThreadPool.Crew.Finish.{IsRound, IsFair, Finished, created_crew-Finished}
use my_ceph.ThreadPool.Crew.Sums.{sum_of}
use my_ceph.ThreadPool.Crew.Count.{is_id, alive_as, IsCrewed}
use my_ceph.ThreadPool.Crew.Acts.{Kept}
use my_ceph.ThreadPool.Crew.Invariant.{IsNumberedOne, IsNumbered, crew_run-Kept}

abbrev job : ℕ → Task
job n = record { function = 1; arg = n }

abbrev pool : ThreadPool
pool = record {
  task_q = job 9 ∷ job 7 ∷ [];
  queue_capacity = 2;
  queue_size = 1;
  queue_front = 1;
  queue_rear = 0;
  thread_ids = 11 ∷ 0 ∷ 12 ∷ [];
  min_num = 1;
  max_num = 3;
  busy_num = 1;
  live_num = 2;
  exit_num = 1;
  shut_down = false;
}

abbrev crew : Crew
crew = record {
  pool = pool;
  threads = record { id = 12; stage = waits } ∷ record { id = 11; stage = runs (job 9) } ∷ [];
  added_tasks = job 7 ∷ job 9 ∷ job 5 ∷ [];
  ended_tasks = job 5 ∷ [];
}

pool-Holds : Holds pool (job 7 ∷ [])
unfolding slot
pool-Holds = record {
  running = refl;
  ring = refl;
  size = refl;
  fits = omega arith;
  front = omega arith;
  rear = refl;
  entries = entry;
}
  where
    entry : (j : ℕ) → j < 1 → get_elem? (job 9 ∷ job 7 ∷ []) (slot 2 1 j) ≡ get_elem? (job 7 ∷ []) j
    entry zero lt = refl
    entry (suc j) lt = absurd (omega arith)

crew-IsCrewed : IsCrewed 1 (job 7 ∷ []) crew
unfolding sum_of count_live
crew-IsCrewed = record {
  ring = pool-Holds;
  staff = record { least = refl; staffed = omega arith; asked = omega arith };
  busy = refl;
  live = refl;
  slots = refl;
  owned = own;
  nonzero = refl;
  conserved = λ p. omega arith;
}
  where
    own : (x : ℕ) → x ≢ 0 → sum_of (is_id x) pool.thread_ids ≡ sum_of (alive_as x) crew.threads
    own x nz = ground arith

-- A task is added, which wakes the waiting thread; it leaves, as it has been asked to. The manager
-- grows the pool.
abbrev actions : List Action
actions =
    moves 0
    ∷ adds (job 3) 0
    ∷ moves 1
    ∷ grows (λ i. 100 + i) 2 1
    ∷ moves 0
    ∷ moves 2
    ∷ shrinks 0 3
    ∷ moves 1
    ∷ []

actions-IsNumbered : IsNumbered actions
unfolding IsNumbered IsNumberedOne
actions-IsNumbered =
    (refl, (refl, (refl, ((λ i. omega arith), (refl, (refl, (refl, (refl, refl))))))))

crew_run-Kept_example : Kept 1 (crew_run actions crew)
crew_run-Kept_example = crew_run-Kept (job 7 ∷ []) crew actions actions-IsNumbered crew-IsCrewed

-- A pool of two threads, with two tasks: the first thread waits before the first is added, and takes it.
abbrev first_actions : List Action
first_actions = moves 0 ∷ moves 1 ∷ adds (job 3) 0 ∷ adds (job 4) 5 ∷ moves 0 ∷ []

first_actions-IsNumbered : IsNumbered first_actions
unfolding IsNumbered IsNumberedOne
first_actions-IsNumbered = (refl, (refl, (refl, (refl, (refl, refl)))))

abbrev first_crew : Crew
first_crew = record {
  pool = record {
    task_q = job 3 ∷ job 4 ∷ [];
    queue_capacity = 2;
    queue_size = 1;
    queue_front = 1;
    queue_rear = 0;
    thread_ids = 100 ∷ 101 ∷ 0 ∷ 0 ∷ [];
    min_num = 2;
    max_num = 4;
    busy_num = 0;
    live_num = 2;
    exit_num = 0;
    shut_down = false;
  };
  threads = record { id = 100; stage = has_task (job 3) } ∷ record { id = 101; stage = woken } ∷ [];
  added_tasks = job 4 ∷ job 3 ∷ [];
  ended_tasks = [];
}

first_run :
    create_crew (λ i. 100 + i) 0 (job 8 ∷ job 8 ∷ []) 2 4 >>= crew_run first_actions ≡ ok first_crew
unfolding create_crew thread_pool_create start_threads store_id new_threads crew_run crew_step
    move_thread thread_step look after_look wake worker_take worker_woken thread_pool_add
    after_client rouse_at rouse_first is_waiting ended_by
first_run = refl

-- The two threads in turn.
in_turn : ℕ → List ℕ
in_turn zero = []
in_turn (suc n) = (1 ∷ 0 ∷ []) ++ in_turn n

in_turn-IsFair : (n : ℕ) → IsFair 2 n (in_turn n)
unfolding IsFair IsRound in_turn
in_turn-IsFair zero = refl
in_turn-IsFair (suc n) = (1 ∷ 0 ∷ [], in_turn n, refl, both, in_turn-IsFair n)
  where
    both : (i : ℕ) → i < 2 → (j : ℕ) × (get_elem? (1 ∷ 0 ∷ []) j ≡ some i)
    both zero lt = (1, refl)
    both (suc zero) lt = (0, refl)
    both (suc (suc i)) lt = absurd (omega arith)

created_crew-Finished_example : Finished 2 first_crew (crew_run (map moves (in_turn 11)) first_crew)
created_crew-Finished_example =
    created_crew-Finished (λ i. 100 + i) (job 8 ∷ job 8 ∷ []) 2 4 11 first_actions first_crew
      (in_turn 11) (λ i. omega arith) (omega arith) (omega arith) (omega arith)
      first_actions-IsNumbered (unfold keeps_threads in refl) first_run (in_turn-IsFair 11)
      (unfold work_left sum_of in omega arith)

-- Both threads wait, and two are still asked to leave, as the manager's signals found none that waited.
abbrev stale_crew : Crew
stale_crew = record {
  pool = record (first_crew.pool) { queue_size = 0; queue_front = 0; min_num = 1; exit_num = 2 };
  threads = record { id = 100; stage = waits } ∷ record { id = 101; stage = waits } ∷ [];
  added_tasks = [];
  ended_tasks = [];
}

-- The thread that a new task wakes leaves, and the other goes on waiting beside the task.
left_waiting :
    ◌>>=◌ {B = ℕ × List Thread}
      (crew_run (adds (job 3) 0 ∷ moves 0 ∷ moves 0 ∷ moves 1 ∷ []) stale_crew)
      (λ crew. ok (crew.pool.queue_size, crew.threads))
    ≡ ok (1, record { id = 100; stage = gone } ∷ record { id = 101; stage = waits } ∷ [])
unfolding crew_run crew_step move_thread thread_step look after_look wake worker_take worker_woken
    thread_pool_add after_client rouse_at rouse_first is_waiting ended_by thread_exit free_slot
left_waiting = refl
