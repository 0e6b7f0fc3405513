-- ===== src/ThreadPool/Crew/Move.antt =====
-- The step of a thread, by its stage.
use my_ceph.Common.{
  ℕ, ◌+◌, ◌*◌, ◌≤◌, ◌<◌, ◌≡◌, ◌==◌, length, ltb, refl, sym, ap, arith, if◌then◌else◌, true, false,
  Bool-cases, inl, inr, ◌⊎◌, List, [], ◌∷◌, Outcome, ok,
}
use my_ceph.ThreadPool.{Task, ThreadPool, worker_woken}
use my_ceph.ThreadPool.Fifo.{
  Holds, less_task, less_task-Holds, worker_take_filled, worker_take_empty,
}
use my_ceph.ThreadPool.Staff.{IsStaffed}
use my_ceph.ThreadPool.Threads.{count_live}
use my_ceph.ThreadPool.Crew.{Stage, waits, has_task, Thread, look, after_look, ended_by}
use my_ceph.ThreadPool.Crew.Sums.{sum_of}
use my_ceph.ThreadPool.Crew.Count.{
  alive_at, exiting_at, running_at, held_at, awake_at, weight_at, alive_as, is_id, IsMove,
}

-- A step of a thread that waits or is gone changes nothing.
pub record IsIdle (queue queue' : List Task) (stage stage' : Stage) : Type 0 where
  pub same_queue : queue' ≡ queue
  pub same_stage : stage' ≡ stage
  pub no_weight : weight_at stage ≡ 0

-- Any other brings the threads nearer to their end.
abbrev pub Pays : List Task → List Task → Stage → Stage → Type 0
Pays queue queue' stage stage' =
    (weight_at stage' + 4 * length queue' < weight_at stage + 4 * length queue)
    ⊎ IsIdle queue queue' stage stage'

-- While no thread is asked to leave, a thread stays awake as long as there is a task in the ring.
pub record Onward (queue queue' : List Task) (stage stage' : Stage) (pool' : ThreadPool)
    : Type 0 where
  pub no_exit : pool'.exit_num ≡ 0
  pub shorter : length queue' ≤ length queue
  pub stays_up : 1 ≤ length queue' → awake_at stage' ≡ awake_at stage

-- A step that came to its end.
pub record Moved (min : ℕ) (queue : List Task) (t : Thread) (pool : ThreadPool)
    (r : Outcome (Stage × ThreadPool)) : Type 0 where
  pub stage : Stage
  pub pool' : ThreadPool
  pub queue' : List Task
  pub returned : r ≡ ok (stage, pool')
  pub move : IsMove min queue queue' t stage pool pool'
  pub capacity : pool'.queue_capacity ≡ pool.queue_capacity
  pub pays : Pays queue queue' t.stage stage
  pub onward : pool.exit_num ≡ 0 → Onward queue queue' t.stage stage pool'

-- The same threads are counted.
pub record IsSameCount (pool pool' : ThreadPool) : Type 0 where
  pub busy : pool'.busy_num ≡ pool.busy_num
  pub live : pool'.live_num ≡ pool.live_num
  pub ids : pool'.thread_ids ≡ pool.thread_ids
  pub ring : pool'.queue_capacity ≡ pool.queue_capacity
  pub exits : pool.exit_num ≡ 0 → pool'.exit_num ≡ 0

-- A thread that holds no task, and runs none.
pub record IsFree (t : Thread) : Type 0 where
  pub here : alive_at t.stage ≡ 1
  pub stays : exiting_at t.stage ≡ 0
  pub idle : running_at t.stage ≡ 0
  pub empty : (p : Task → ℕ) → held_at p t.stage ≡ 0
  pub ends : ended_by t.stage ≡ []
  pub up : awake_at t.stage ≡ 1
  pub heavy : 1 ≤ weight_at t.stage

alive_as-stage :
    (x : ℕ) (t : Thread) (stage : Stage)
    → alive_at stage ≡ alive_at t.stage
    → alive_as x (record t { stage = stage }) ≡ alive_as x t
alive_as-stage x t stage e = ap (λ (n : ℕ). if t.id == x then n else 0) e

-- A thread that goes on.
pub stays_alive :
    {min : ℕ} {queue queue' : List Task} (t : Thread) (stage : Stage) (pool pool' : ThreadPool)
    → Holds pool' queue'
    → IsStaffed min pool'
    → pool'.thread_ids ≡ pool.thread_ids
    → alive_at stage ≡ alive_at t.stage
    → pool'.busy_num + running_at t.stage ≡ pool.busy_num + running_at stage
    → pool'.live_num + exiting_at stage ≡ pool.live_num + exiting_at t.stage
    → ((p : Task → ℕ)
        → sum_of p queue' + held_at p stage + sum_of p (ended_by t.stage)
          ≡ sum_of p queue + held_at p t.stage)
    → IsMove min queue queue' t stage pool pool'
stays_alive t stage pool pool' ring staff ids same busy live conserved = record {
  ring = ring;
  staff = staff;
  busy = busy;
  live = omega (arith, live, same);
  slots = omega (arith, ap count_live ids, same);
  owned = λ x nz. omega (arith, ap (sum_of (is_id x)) ids, alive_as-stage x t stage same);
  fewer = omega (arith, same);
  conserved = conserved;
}

pub look-Moved :
    {min : ℕ} (queue : List Task) (t : Thread) (pool pool' : ThreadPool)
    → Holds pool' queue
    → IsStaffed min pool'
    → IsSameCount pool pool'
    → IsFree t
    → Moved min queue t pool (look pool')
unfolding look after_look sum_of
look-Moved [] t pool pool' h s c f = record {
  stage = waits;
  pool' = pool';
  queue' = [];
  returned = rw (worker_take_empty pool' h) refl;
  move =
      stays_alive t waits pool pool' h s c.ids (sym f.here) (omega (arith, c.busy, f.idle))
        (omega (arith, c.live, f.stays)) (λ p. omega (arith, f.empty p, ap (sum_of p) f.ends));
  capacity = c.ring;
  pays = inl (omega (arith, f.heavy));
  onward = λ z. record {
    no_exit = c.exits z;
    shorter = omega arith;
    stays_up = λ h. absurd (omega arith);
  };
}
look-Moved (task ∷ queue) t pool pool' h s c f = record {
  stage = has_task task;
  pool' = less_task pool';
  queue' = queue;
  returned = rw (worker_take_filled pool' task queue h) refl;
  move =
      stays_alive t (has_task task) pool (less_task pool') (less_task-Holds pool' task queue h)
        (record { least = s.least; staffed = s.staffed; asked = s.asked }) c.ids (sym f.here)
        (omega (arith, c.busy, f.idle)) (omega (arith, c.live, f.stays))
        (λ p. omega (arith, f.empty p, ap (sum_of p) f.ends));
  capacity = c.ring;
  pays = inl (omega (arith, f.heavy));
  onward = λ z. record { no_exit = c.exits z; shorter = omega arith; stays_up = λ h. sym f.up };
}

pub same_pool : (pool : ThreadPool) → IsSameCount pool pool
same_pool pool = record { busy = refl; live = refl; ids = refl; ring = refl; exits = λ z. z }

-- What `worker_woken` does: leave, or go on with the same count. It leaves only if that was asked for.
pub woken_cases :
    {min : ℕ} (pool : ThreadPool)
    → IsStaffed min pool
    → ((worker_woken pool).0 ≡ true)
        × ((worker_woken pool).1.live_num + 1 ≡ pool.live_num)
        × ((worker_woken pool).1.busy_num ≡ pool.busy_num)
        × ((worker_woken pool).1.thread_ids ≡ pool.thread_ids)
        × ((worker_woken pool).1.queue_capacity ≡ pool.queue_capacity)
        × (1 ≤ pool.exit_num)
      ⊎ ((worker_woken pool).0 ≡ false) × IsSameCount pool (worker_woken pool).1
unfolding worker_woken
woken_cases pool s = elim (Bool-cases (ltb 0 pool.exit_num)) [
  | inl asked ↦ elim (Bool-cases (ltb pool.min_num pool.live_num)) [
    | inl more ↦ inl (rw (asked, more) (refl, ground arith, refl, refl, refl, ground arith))
    | inr few ↦ inr (
        rw (asked, few)
          (
            refl,
            record {
              busy = refl;
              live = refl;
              ids = refl;
              ring = refl;
              exits = λ z. omega (arith, z);
            },
          ))
  ]
  | inr calm ↦ inr (rw calm (refl, same_pool pool))
]
