-- ===== src/ThreadPool/Crew/Count.antt =====
-- What a thread counts for, and what a change of one thread does to the numbers of the pool.
use my_ceph.Common.{
  ℕ, ◌+◌, ◌≤◌, ◌≡◌, ◌≢◌, ◌==◌, arith, if◌then◌else◌, Bool, true, false, List, ◌++◌, get_elem?, set,
  some,
}
use my_ceph.ThreadPool.{Task, ThreadPool}
use my_ceph.ThreadPool.Fifo.{Holds}
use my_ceph.ThreadPool.Staff.{IsStaffed}
use my_ceph.ThreadPool.Threads.{count_live}
use my_ceph.ThreadPool.Crew.{
  Stage, at_head, waits, woken, has_task, runs, exiting, gone, Thread, Crew, ended_by,
}
use my_ceph.ThreadPool.Crew.Sums.{sum_of, sum_of-append, sum_of-set}

abbrev pub alive_at : Stage → ℕ
alive_at gone = 0
alive_at at_head = 1
alive_at waits = 1
alive_at woken = 1
alive_at (has_task task) = 1
alive_at (runs task) = 1
alive_at exiting = 1

abbrev pub exiting_at : Stage → ℕ
exiting_at exiting = 1
exiting_at at_head = 0
exiting_at waits = 0
exiting_at woken = 0
exiting_at (has_task task) = 0
exiting_at (runs task) = 0
exiting_at gone = 0

abbrev pub running_at : Stage → ℕ
running_at (runs task) = 1
running_at at_head = 0
running_at waits = 0
running_at woken = 0
running_at (has_task task) = 0
running_at exiting = 0
running_at gone = 0

-- What the task in a thread's hands weighs.
abbrev pub held_at : (Task → ℕ) → Stage → ℕ
held_at p (has_task task) = p task
held_at p (runs task) = p task
held_at p at_head = 0
held_at p waits = 0
held_at p woken = 0
held_at p exiting = 0
held_at p gone = 0

abbrev pub alive : Thread → ℕ
alive t = alive_at t.stage

abbrev pub leaving : Thread → ℕ
leaving t = exiting_at t.stage

abbrev pub running : Thread → ℕ
running t = running_at t.stage

abbrev pub held : (Task → ℕ) → Thread → ℕ
held p t = held_at p t.stage

abbrev pub alive_as : ℕ → Thread → ℕ
alive_as x t = if t.id == x then alive_at t.stage else 0

-- A thread that goes on by itself.
abbrev pub awake_at : Stage → ℕ
awake_at waits = 0
awake_at at_head = 1
awake_at woken = 1
awake_at (has_task task) = 1
awake_at (runs task) = 1
awake_at exiting = 0
awake_at gone = 0

abbrev pub waiting_at : Stage → ℕ
waiting_at waits = 1
waiting_at at_head = 0
waiting_at woken = 0
waiting_at (has_task task) = 0
waiting_at (runs task) = 0
waiting_at exiting = 0
waiting_at gone = 0

-- How many steps a thread makes at most until it waits or is gone, if there is no other task for it.
abbrev pub weight_at : Stage → ℕ
weight_at waits = 0
weight_at at_head = 1
weight_at woken = 2
weight_at (has_task task) = 4
weight_at (runs task) = 3
weight_at exiting = 1
weight_at gone = 0

abbrev pub awake : Thread → ℕ
awake t = awake_at t.stage

abbrev pub waiting : Thread → ℕ
waiting t = waiting_at t.stage

abbrev pub weight : Thread → ℕ
weight t = weight_at t.stage

-- How many slots hold the number `x`.
abbrev pub is_id : ℕ → ℕ → ℕ
is_id x id = if id == x then 1 else 0

-- The pool and its threads agree: the ring holds the tasks `queue`; as many threads are counted as busy
-- as run a task; as many are counted as live as are neither gone nor about to leave; the slots hold the
-- numbers of the threads that are not gone, each as often; and each task that was added is in the ring,
-- in the hands of a thread, or has ended, as often as it was added, by any weight of the tasks.
pub record IsCrewed (min : ℕ) (queue : List Task) (crew : Crew) : Type 0 where
  pub ring : Holds crew.pool queue
  pub staff : IsStaffed min crew.pool
  pub busy : crew.pool.busy_num ≡ sum_of running crew.threads
  pub live : crew.pool.live_num + sum_of leaving crew.threads ≡ sum_of alive crew.threads
  pub slots : count_live crew.pool.thread_ids ≡ sum_of alive crew.threads
  pub owned :
      (x : ℕ) → x ≢ 0 → sum_of (is_id x) crew.pool.thread_ids ≡ sum_of (alive_as x) crew.threads
  pub nonzero : sum_of (alive_as 0) crew.threads ≡ 0
  pub conserved :
      (p : Task → ℕ)
      → sum_of p crew.added_tasks
        ≡ sum_of p queue + sum_of (held p) crew.threads + sum_of p crew.ended_tasks

-- What a thread does to the numbers when it goes from one stage to another.
pub record IsMove (min : ℕ) (queue queue' : List Task) (t : Thread) (stage : Stage)
    (pool pool' : ThreadPool) : Type 0 where
  pub ring : Holds pool' queue'
  pub staff : IsStaffed min pool'
  pub busy : pool'.busy_num + running_at t.stage ≡ pool.busy_num + running_at stage
  pub live :
      pool'.live_num + exiting_at stage + alive_at t.stage
      ≡ pool.live_num + exiting_at t.stage + alive_at stage
  pub slots :
      count_live pool'.thread_ids + alive_at t.stage ≡ count_live pool.thread_ids + alive_at stage
  pub owned :
      (x : ℕ)
      → x ≢ 0
      → sum_of (is_id x) pool'.thread_ids + alive_as x t
        ≡ sum_of (is_id x) pool.thread_ids + alive_as x (record t { stage = stage })
  pub fewer : alive_at stage ≤ alive_at t.stage
  pub conserved :
      (p : Task → ℕ)
      → sum_of p queue' + held_at p stage + sum_of p (ended_by t.stage)
        ≡ sum_of p queue + held_at p t.stage

alive_as-le :
    (t : Thread) (stage : Stage)
    → alive_at stage ≤ alive_at t.stage
    → alive_as 0 (record t { stage = stage }) ≤ alive_as 0 t
alive_as-le t stage le = by_cases (t.id == 0)
  where
    by_cases : (b : Bool) → (if b then alive_at stage else 0) ≤ (if b then alive_at t.stage else 0)
    by_cases true = le
    by_cases false = omega arith

pub IsMove-IsCrewed :
    {min : ℕ} (queue queue' : List Task) (crew : Crew) (i : ℕ) (t : Thread) (stage : Stage)
    (pool' : ThreadPool)
    → IsCrewed min queue crew
    → get_elem? crew.threads i ≡ some t
    → IsMove min queue queue' t stage crew.pool pool'
    → IsCrewed min queue' (record crew {
      pool = pool';
      threads = set crew.threads i (record t { stage = stage });
      ended_tasks = ended_by t.stage ++ crew.ended_tasks;
    })
IsMove-IsCrewed queue queue' crew i t stage pool' c at m =
    let t' = record t { stage = stage } in
    record {
      ring = m.ring;
      staff = m.staff;
      busy = omega (arith, c.busy, m.busy, sum_of-set running crew.threads i t t' at);
      live = omega (
        arith,
        c.live,
        m.live,
        sum_of-set leaving crew.threads i t t' at,
        sum_of-set alive crew.threads i t t' at,
      );
      slots = omega (arith, c.slots, m.slots, sum_of-set alive crew.threads i t t' at);
      owned = λ x nz.
          omega (arith, c.owned x nz, m.owned x nz, sum_of-set (alive_as x) crew.threads i t t' at);
      nonzero = omega (
        arith,
        c.nonzero,
        alive_as-le t stage m.fewer,
        sum_of-set (alive_as 0) crew.threads i t t' at,
      );
      conserved = λ p. omega (
        arith,
        c.conserved p,
        m.conserved p,
        sum_of-set (held p) crew.threads i t t' at,
        sum_of-append p (ended_by t.stage) crew.ended_tasks,
      );
    }
