-- ===== src/ThreadPool/Crew/Step.antt =====
-- `threadExit` against the slots, and every step of a thread.
use my_ceph.Common.{
  ℕ, ◌+◌, ◌-◌, ◌≤◌, ◌≡◌, ◌≢◌, ◌==◌, refl, sym, ap, subst, arith, if◌then◌else◌, Bool, Bool-cases,
  true, false, inl, inr, List, [], ◌∷◌, ok,
}
use my_ceph.ThreadPool.{
  Task, ThreadPool, worker_woken, worker_busy, worker_idle, thread_exit, free_slot,
}
use my_ceph.ThreadPool.Fifo.{Holds}
use my_ceph.ThreadPool.Queue.{worker_woken-Holds}
use my_ceph.ThreadPool.Staff.{IsStaffed, worker_woken-IsStaffed}
use my_ceph.ThreadPool.Threads.{count_live}
use my_ceph.ThreadPool.Crew.{
  Stage, at_head, waits, woken, has_task, runs, exiting, gone, Thread, look, wake, thread_step,
  ended_by,
}
use my_ceph.ThreadPool.Crew.Sums.{sum_of}
use my_ceph.ThreadPool.Crew.Count.{alive_at, running_at, is_id}
use my_ceph.ThreadPool.Crew.Move.{Moved, Onward, stays_alive, look-Moved, same_pool, woken_cases}

free_slot-count :
    (tid : ℕ) (ids : List ℕ)
    → tid ≢ 0
    → 1 ≤ sum_of (is_id tid) ids
    → count_live (free_slot tid ids) + 1 ≡ count_live ids
unfolding count_live free_slot sum_of
free_slot-count tid [] nz h = absurd (omega (arith, h))
free_slot-count tid (id ∷ ids) nz h = elim (Bool-cases (id == tid)) [
  | inl here ↦ rw here (ground arith)
  | inr other ↦ let rest = free_slot-count tid ids nz (h' other h) in rw other (omega (arith, rest))
]
  where
    h' :
        (id == tid) ≡ false
        → 1 ≤ (if id == tid then 1 else 0) + sum_of (is_id tid) ids
        → 1 ≤ sum_of (is_id tid) ids
    h' other h = ground arith

free_slot-is_id :
    (x tid : ℕ) (ids : List ℕ)
    → x ≢ 0
    → 1 ≤ sum_of (is_id tid) ids
    → sum_of (is_id x) (free_slot tid ids) + (if tid == x then 1 else 0) ≡ sum_of (is_id x) ids
unfolding free_slot sum_of
free_slot-is_id x tid [] nz h = absurd (omega (arith, h))
free_slot-is_id x tid (id ∷ ids) nz h = elim (Bool-cases (id == tid)) [
  | inl here ↦ rw here (ground arith)
  | inr other ↦
      let rest = free_slot-is_id x tid ids nz (h' other h) in rw other (omega (arith, rest))
]
  where
    h' :
        (id == tid) ≡ false
        → 1 ≤ (if id == tid then 1 else 0) + sum_of (is_id tid) ids
        → 1 ≤ sum_of (is_id tid) ids
    h' other h = ground arith

-- What the steps of a thread ask of the pool: its number, when it is about to run `threadExit`, is in
-- the slots, and it is counted when it is in a task.
pub record HasPlace (t : Thread) (pool : ThreadPool) : Type 0 where
  pub counted : running_at t.stage ≤ pool.busy_num
  pub numbered : alive_at t.stage ≡ 1 → (t.id ≢ 0) × (1 ≤ sum_of (is_id t.id) pool.thread_ids)

keeps_ring :
    {pool : ThreadPool} {queue : List Task} (ids : List ℕ) (busy : ℕ)
    → Holds pool queue
    → Holds (record pool { thread_ids = ids; busy_num = busy }) queue
keeps_ring ids busy h = record {
  running = h.running;
  ring = h.ring;
  size = h.size;
  fits = h.fits;
  front = h.front;
  rear = h.rear;
  entries = h.entries;
}

same_staff :
    {min : ℕ} {pool : ThreadPool} (ids : List ℕ) (busy : ℕ)
    → IsStaffed min pool
    → IsStaffed min (record pool { thread_ids = ids; busy_num = busy })
same_staff ids busy s = record { least = s.least; staffed = s.staffed; asked = s.asked }

wake_leaves : (w : Bool × ThreadPool) → w.0 ≡ true → wake w ≡ ok (exiting, w.1)
unfolding wake
wake_leaves (true, p) e = refl
wake_leaves (false, p) e = absurd (cc)

wake_stays : (w : Bool × ThreadPool) → w.0 ≡ false → wake w ≡ look w.1
unfolding wake
wake_stays (true, p) e = absurd (cc)
wake_stays (false, p) e = refl

woken-Moved :
    {min : ℕ} (queue : List Task) (id : ℕ) (pool : ThreadPool)
    → Holds pool queue
    → IsStaffed min pool
    → Moved min queue (record { id = id; stage = woken }) pool (wake (worker_woken pool))
unfolding sum_of ended_by
woken-Moved {min} queue id pool h s = elim (woken_cases pool s) [
  | inl (e, live, busy, ids, ring, asked) ↦ record {
    stage = exiting;
    pool' = (worker_woken pool).1;
    queue' = queue;
    returned = wake_leaves (worker_woken pool) e;
    move = record {
      ring = worker_woken-Holds pool queue h;
      staff = worker_woken-IsStaffed pool s;
      busy = omega (arith, busy);
      live = omega (arith, live);
      slots = omega (arith, ap count_live ids);
      owned = λ x nz. omega (arith, ap (sum_of (is_id x)) ids);
      fewer = omega arith;
      conserved = λ p. omega arith;
    };
    capacity = ring;
    pays = inl (omega arith);
    onward = λ z. absurd (omega (arith, z, asked));
  }
  | inr (e, same) ↦
      subst (Moved min queue (record { id = id; stage = woken }) pool)
        (sym (wake_stays (worker_woken pool) e))
        (look-Moved queue (record { id = id; stage = woken }) pool (worker_woken pool).1
          (worker_woken-Holds pool queue h) (worker_woken-IsStaffed pool s) same
          (record {
            here = refl;
            stays = refl;
            idle = refl;
            empty = λ p. refl;
            ends = refl;
            up = refl;
            heavy = omega arith;
          }))
]

step-Moved :
    {min : ℕ} (queue : List Task) (id : ℕ) (stage : Stage) (pool : ThreadPool)
    → Holds pool queue
    → IsStaffed min pool
    → HasPlace (record { id = id; stage = stage }) pool
    → Moved min queue (record { id = id; stage = stage }) pool (thread_step pool id stage)
unfolding thread_step worker_busy worker_idle thread_exit sum_of ended_by
step-Moved queue id at_head pool h s a =
    look-Moved queue (record { id = id; stage = at_head }) pool pool h s (same_pool pool)
      (record {
        here = refl;
        stays = refl;
        idle = refl;
        empty = λ p. refl;
        ends = refl;
        up = refl;
        heavy = omega arith;
      })
step-Moved queue id waits pool h s a = record {
  stage = waits;
  pool' = pool;
  queue' = queue;
  returned = refl;
  move =
      stays_alive (record { id = id; stage = waits }) waits pool pool h s refl refl refl refl
        (λ p. omega arith);
  capacity = refl;
  pays = inr (record { same_queue = refl; same_stage = refl; no_weight = refl });
  onward = still;
}
  where
    still : pool.exit_num ≡ 0 → Onward queue queue waits waits pool
    still z = record { no_exit = z; shorter = omega arith; stays_up = λ up. refl }
step-Moved queue id woken pool h s a = woken-Moved queue id pool h s
step-Moved queue id (has_task task) pool h s a = record {
  stage = runs task;
  pool' = worker_busy pool;
  queue' = queue;
  returned = refl;
  move =
      stays_alive (record { id = id; stage = has_task task }) (runs task) pool (worker_busy pool)
        (keeps_ring pool.thread_ids (pool.busy_num + 1) h)
        (same_staff pool.thread_ids (pool.busy_num + 1) s) refl refl (omega arith) refl
        (λ p. omega arith);
  capacity = refl;
  pays = inl (omega arith);
  onward = λ z. record { no_exit = z; shorter = omega arith; stays_up = λ up. refl };
}
step-Moved queue id (runs task) pool h s a = record {
  stage = at_head;
  pool' = worker_idle pool;
  queue' = queue;
  returned = refl;
  move =
      stays_alive (record { id = id; stage = runs task }) at_head pool (worker_idle pool)
        (keeps_ring pool.thread_ids (pool.busy_num - 1) h)
        (same_staff pool.thread_ids (pool.busy_num - 1) s) refl refl (omega (arith, a.counted)) refl
        (λ p. omega arith);
  capacity = refl;
  pays = inl (omega arith);
  onward = λ z. record { no_exit = z; shorter = omega arith; stays_up = λ up. refl };
}
step-Moved queue id exiting pool h s a =
    let (nz, some) = a.numbered refl in
    record {
      stage = gone;
      pool' = thread_exit pool id;
      queue' = queue;
      returned = refl;
      move = record {
        ring = keeps_ring (free_slot id pool.thread_ids) pool.busy_num h;
        staff = same_staff (free_slot id pool.thread_ids) pool.busy_num s;
        busy = refl;
        live = omega arith;
        slots = omega (arith, free_slot-count id pool.thread_ids nz some);
        owned = λ x xnz. ground (arith, free_slot-is_id x id pool.thread_ids xnz some);
        fewer = omega arith;
        conserved = λ p. omega arith;
      };
      capacity = refl;
      pays = inl (omega arith);
      onward = λ z. record { no_exit = z; shorter = omega arith; stays_up = λ up. refl };
    }
step-Moved queue id gone pool h s a = record {
  stage = gone;
  pool' = pool;
  queue' = queue;
  returned = refl;
  move =
      stays_alive (record { id = id; stage = gone }) gone pool pool h s refl refl refl refl
        (λ p. omega arith);
  capacity = refl;
  pays = inr (record { same_queue = refl; same_stage = refl; no_weight = refl });
  onward = λ z. record { no_exit = z; shorter = omega arith; stays_up = λ up. refl };
}

-- The step of a thread that has its place.
pub thread_step-Moved :
    {min : ℕ} (queue : List Task) (t : Thread) (pool : ThreadPool)
    → Holds pool queue
    → IsStaffed min pool
    → HasPlace t pool
    → Moved min queue t pool (thread_step pool t.id t.stage)
thread_step-Moved queue t pool h s a = step-Moved queue t.id t.stage pool h s a
