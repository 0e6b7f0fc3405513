-- ===== src/Tests/Pool.antt =====
-- A run of a pool with a ring of two.
use my_ceph.Common.{
  ℕ, zero, suc, ◌<◌, ◌≤◌, ◌≡◌, refl, arith, List, [], ◌∷◌, get_elem?, Bool, ◌+◌, ◌>>=◌, some, fault,
  ok,
}
use my_ceph.ThreadPool.{Task, ThreadPool, thread_pool_create, thread_pool_add, manager_grow}
use my_ceph.ThreadPool.Threads.{Grown, count_live, manager_grow-Grown}
use my_ceph.ThreadPool.Create.{created_pool-Served}
use my_ceph.ThreadPool.Ring.{slot}
use my_ceph.ThreadPool.Fifo.{Holds}
use my_ceph.ThreadPool.Events.{Event, add_task, take_task, begin_task, end_task, pool_run}
use my_ceph.ThreadPool.Drain.{Drains, count_takes, pool_run-Drains}
use my_ceph.ThreadPool.Grants.{Grants, create_if_granted, thread_pool_add-create_if_granted}
use my_ceph.ThreadPool.Queue.{Served, pool_run-Served}

abbrev job : ℕ → Task
job n = record { function = 1; arg = n }

-- The third slot of the ring is the first again.
abbrev small_pool : ThreadPool
small_pool = record {
  task_q = job 9 ∷ job 7 ∷ [];
  queue_capacity = 2;
  queue_size = 1;
  queue_front = 1;
  queue_rear = 0;
  thread_ids = 11 ∷ 12 ∷ 0 ∷ [];
  min_num = 1;
  max_num = 3;
  busy_num = 0;
  live_num = 2;
  exit_num = 0;
  shut_down = Bool.false;
}

small_pool-Holds : Holds small_pool (job 7 ∷ [])
unfolding slot
small_pool-Holds = record {
  running = refl;
  ring = refl;
  size = refl;
  fits = omega arith;
  front = omega arith;
  rear = refl;
  entries = entry;
}
  where
    entry : (j : ℕ) → j < 1 → get_elem? (job 9 ∷ job 7 ∷ []) (slot 2 1 j) ≡ get_elem? (job 7 ∷ []) j
    entry zero lt = refl
    entry (suc j) lt = absurd (omega arith)

abbrev events : List Event
events =
    add_task (job 3)
    ∷ add_task (job 4)
    ∷ take_task
    ∷ begin_task
    ∷ end_task
    ∷ take_task
    ∷ take_task
    ∷ []

pool_run-Served_example : Served (job 7 ∷ []) (pool_run events small_pool)
pool_run-Served_example = pool_run-Served small_pool (job 7 ∷ []) events small_pool-Holds

created_pool-Served_example :
    Served []
      (thread_pool_create (λ i. 100 + i) 0 (job 8 ∷ job 8 ∷ job 8 ∷ []) 3 10 >>= pool_run events)
created_pool-Served_example =
    created_pool-Served (λ i. 100 + i) (job 8 ∷ job 8 ∷ job 8 ∷ []) 3 10 events (omega arith)
      (omega arith)

manager_grow-Grown_example :
    Grown small_pool (manager_grow (λ i. 100 + i) 1 2 small_pool)
    × ((manager_grow (λ i. 100 + i) 1 2 small_pool).live_num ≤ 3)
manager_grow-Grown_example =
    manager_grow-Grown (λ i. 100 + i) 1 2 small_pool (λ i. omega arith)
      (unfold count_live in omega arith)

pool_run-Drains_example : Drains (job 7 ∷ []) (pool_run events small_pool)
pool_run-Drains_example =
    pool_run-Drains small_pool (job 7 ∷ []) [] events small_pool-Holds
      (unfold count_takes in omega arith)

-- The ring still holds a task when the pool is shut down.
abbrev closed_pool : ThreadPool
closed_pool = record small_pool { shut_down = Bool.true }

no_ring : Grants
no_ring = record {
  pool = Bool.true;
  thread_ids = Bool.true;
  locks = Bool.true;
  task_q = Bool.false;
}

thread_pool_add-create_if_granted_example :
    (pool : ThreadPool) × (create_if_granted no_ring Bool.true
        (λ i. 100 + i)
        0
        (job 8 ∷ job 8 ∷ [])
        1
        3
      ≡ ok (some pool))
    × ((task : Task) → thread_pool_add pool task ≡ fault)
unfolding no_ring
thread_pool_add-create_if_granted_example =
    thread_pool_add-create_if_granted no_ring Bool.true (λ i. 100 + i) (job 8 ∷ job 8 ∷ []) 1 3 refl
      refl refl refl (omega arith) (omega arith)
