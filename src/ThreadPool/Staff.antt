-- ===== src/ThreadPool/Staff.antt =====
-- The numbers of threads over whole runs.
use my_ceph.Common.{
  ℕ, ◌+◌, ◌-◌, ◌*◌, ◌%◌, ◌≤◌, ◌==◌, ltb, leb, ◌&&◌, not, if◌then◌else◌, ◌≡◌, refl, subst, arith,
  Bool, Bool-cases, inl, inr, true, false, List, [], ◌∷◌, set, length, get_elem?, Option, none,
  some, ok, fault, from_option, ok-inj, ◌>>=◌, >>=-eq-ok,
}
use my_ceph.ThreadPool.{
  Task, ThreadPool, Added, must_wait, refused, added, thread_pool_add, Taken, sleeps, leaves, took,
  worker_take, worker_woken, worker_busy, worker_idle, thread_exit, manager_grow, manager_shrink,
  number,
}
use my_ceph.ThreadPool.Fifo.{Holds}
use my_ceph.ThreadPool.Events.{
  Event, add_task, take_task, wake_up, begin_task, end_task, exit_thread, grow_pool, shrink_pool,
  Trace, after_add, after_take, pool_step, pool_run,
}
use my_ceph.ThreadPool.Queue.{pool_run-Served}

-- Not fewer threads live than the pool keeps at least, and no more than `NUMBER` are asked to leave.
pub record IsStaffed (min : ℕ) (pool : ThreadPool) : Type 0 where
  pub least : pool.min_num ≡ min
  pub staffed : min ≤ pool.live_num
  pub asked : pool.exit_num ≤ number

same_numbers :
    {min : ℕ} {pool : ThreadPool} (tasks : List Task) (size front rear busy : ℕ) (ids : List ℕ)
    → IsStaffed min pool
    → IsStaffed min (record pool {
      task_q = tasks;
      queue_size = size;
      queue_front = front;
      queue_rear = rear;
      busy_num = busy;
      thread_ids = ids;
    })
same_numbers tasks size front rear busy ids s = record {
  least = s.least;
  staffed = s.staffed;
  asked = s.asked;
}

IsStaffed-if :
    {min : ℕ} (b : Bool) (p q : ThreadPool)
    → (b ≡ true → IsStaffed min p)
    → IsStaffed min q
    → IsStaffed min (if b then p else q)
IsStaffed-if true p q hp hq = hp refl
IsStaffed-if false p q hp hq = hq

module _ {min : ℕ} (pool : ThreadPool) (s : IsStaffed min pool) where
  thread_pool_add-IsStaffed :
      (task : Task) (a : Added)
      → thread_pool_add pool task ≡ ok a
      → IsStaffed min (after_add pool task a).pool
  unfolding thread_pool_add after_add
  thread_pool_add-IsStaffed task a h =
      by_cases (pool.queue_size == pool.queue_capacity && not pool.shut_down) pool.shut_down
        (ltb pool.queue_rear (length pool.task_q)) h
    where
      more : ThreadPool
      more = record pool {
        task_q = set pool.task_q pool.queue_rear task;
        queue_rear = (pool.queue_rear + 1) % pool.queue_capacity;
        queue_size = pool.queue_size + 1;
      }

      after :
          (b : Added)
          → ok b ≡ ok a
          → IsStaffed min (after_add pool task b).pool
          → IsStaffed min (after_add pool task a).pool
      after b e h = subst (λ (c : Added). IsStaffed min (after_add pool task c).pool) (ok-inj e) h

      by_cases :
          (p q r : Bool)
          → (if p
              then ok must_wait
              else if q
              then ok refused
              else if r
              then ok (added more)
              else fault)
            ≡ ok a
          → IsStaffed min (after_add pool task a).pool
      by_cases true q r e = after must_wait e s
      by_cases false true r e = after refused e s
      by_cases false false true e = after (added more) e (same_numbers _ _ _ _ _ _ s)
      by_cases false false false e = absurd (cc)

  worker_take-IsStaffed :
      (t : Taken) → worker_take pool ≡ ok t → IsStaffed min (after_take pool t).pool
  unfolding worker_take after_take
  worker_take-IsStaffed t h =
      by_cases (pool.queue_size == 0 && not pool.shut_down) pool.shut_down
        (get_elem? pool.task_q pool.queue_front) h
    where
      less : ThreadPool
      less = record pool {
        queue_front = (pool.queue_front + 1) % pool.queue_capacity;
        queue_size = pool.queue_size - 1;
      }

      after :
          (b : Taken)
          → ok b ≡ ok t
          → IsStaffed min (after_take pool b).pool
          → IsStaffed min (after_take pool t).pool
      after b e h = subst (λ (c : Taken). IsStaffed min (after_take pool c).pool) (ok-inj e) h

      by_cases :
          (p q : Bool) (o : Option Task)
          → (if p
              then ok sleeps
              else if q
              then ok leaves
              else (from_option o >>= λ task. ok (took task less)))
            ≡ ok t
          → IsStaffed min (after_take pool t).pool
      by_cases true q o e = after sleeps e s
      by_cases false true o e = after leaves e s
      by_cases false false none e = absurd (cc)
      by_cases false false (some task) e = after (took task less) e (same_numbers _ _ _ _ _ _ s)

  pub worker_woken-IsStaffed : IsStaffed min (worker_woken pool).1
  unfolding worker_woken
  worker_woken-IsStaffed = elim (Bool-cases (ltb 0 pool.exit_num)) [
    | inl asked ↦ elim (Bool-cases (ltb pool.min_num pool.live_num)) [
      | inl more ↦
          rw (asked, more)
            (record {
              least = s.least;
              staffed = ground (arith, s.least);
              asked = omega (arith, s.asked);
            })
      | inr kept ↦
          rw (asked, kept)
            (record { least = s.least; staffed = s.staffed; asked = omega (arith, s.asked) })
    ]
    | inr calm ↦ rw calm s
  ]

  pool_step-IsStaffed : (e : Event) (t : Trace) → pool_step pool e ≡ ok t → IsStaffed min t.pool
  unfolding pool_step worker_busy worker_idle thread_exit manager_grow manager_shrink
  pool_step-IsStaffed (add_task task) t h =
      let (a, ea, k) = >>=-eq-ok (thread_pool_add pool task) _ h in
      subst (λ (u : Trace). IsStaffed min u.pool) (ok-inj k) (thread_pool_add-IsStaffed task a ea)
  pool_step-IsStaffed take_task t h =
      let (a, ea, k) = >>=-eq-ok (worker_take pool) _ h in
      subst (λ (u : Trace). IsStaffed min u.pool) (ok-inj k) (worker_take-IsStaffed a ea)
  pool_step-IsStaffed wake_up t h =
      subst (λ (u : Trace). IsStaffed min u.pool) (ok-inj h) worker_woken-IsStaffed
  pool_step-IsStaffed begin_task t h =
      subst (λ (u : Trace). IsStaffed min u.pool) (ok-inj h) (same_numbers _ _ _ _ _ _ s)
  pool_step-IsStaffed end_task t h =
      subst (λ (u : Trace). IsStaffed min u.pool) (ok-inj h) (same_numbers _ _ _ _ _ _ s)
  pool_step-IsStaffed (exit_thread tid) t h =
      subst (λ (u : Trace). IsStaffed min u.pool) (ok-inj h) (same_numbers _ _ _ _ _ _ s)
  pool_step-IsStaffed (grow_pool tid queue_size live_num) t h =
      subst (λ (u : Trace). IsStaffed min u.pool) (ok-inj h)
        (IsStaffed-if (leb 1 queue_size && ltb live_num pool.max_num) _ pool
          (λ e. record { least = s.least; staffed = omega (arith, s.staffed); asked = s.asked }) s)
  pool_step-IsStaffed (shrink_pool busy_num live_num) t h =
      subst (λ (u : Trace). IsStaffed min u.pool) (ok-inj h)
        (IsStaffed-if (ltb (busy_num * 2) live_num && ltb pool.min_num live_num) _ pool
          (λ e. record { least = s.least; staffed = s.staffed; asked = omega arith }) s)

IsStaffed-pool_run :
    {min : ℕ} (pool : ThreadPool) (es : List Event) (t : Trace)
    → IsStaffed min pool
    → pool_run es pool ≡ ok t
    → IsStaffed min t.pool
unfolding pool_run
IsStaffed-pool_run {min} pool [] t s h = subst (λ (u : Trace). IsStaffed min u.pool) (ok-inj h) s
IsStaffed-pool_run {min} pool (e ∷ es) t s h =
    let (t1, e1, k) = >>=-eq-ok (pool_step pool e) _ h in
    let (t2, e2, k2) = >>=-eq-ok (pool_run es t1.pool) _ k in
    subst (λ (u : Trace). IsStaffed min u.pool) (ok-inj k2)
      (IsStaffed-pool_run t1.pool es t2 (pool_step-IsStaffed pool s e t1 e1) e2)

-- Let a running pool hold tasks, with no fewer threads live than `min`, its own least number, and no
-- more than `NUMBER` asked to leave. Then every run of its operations, in any order, returns a pool of
-- which the same is true.
pub pool_run-IsStaffed :
    {min : ℕ} (pool : ThreadPool) (tasks : List Task) (es : List Event)
    → Holds pool tasks
    → IsStaffed min pool
    → (t : Trace) × (pool_run es pool ≡ ok t) × IsStaffed min t.pool
pool_run-IsStaffed pool tasks es h s =
    let served = pool_run-Served pool tasks es h in
    (served.trace, served.ended, IsStaffed-pool_run pool es served.trace s served.ended)
