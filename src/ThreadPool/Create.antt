-- ===== src/ThreadPool/Create.antt =====
-- A pool that has been created is an empty queue, if the memory of `queueSize` held 0.
use my_ceph.Common.{
  ℕ, zero, suc, ◌+◌, ◌≤◌, ◌<◌, ◌≡◌, refl, ap, false, arith, lt→ltb, List, [], length, set,
  length-set, replicate, length-replicate, Outcome, ok, ◌>>=◌,
}
use my_ceph.ThreadPool.{Task, ThreadPool, store_id, start_threads, thread_pool_create}
use my_ceph.ThreadPool.Ring.{slot}
use my_ceph.ThreadPool.Fifo.{Holds}
use my_ceph.ThreadPool.Events.{Event, pool_run}
use my_ceph.ThreadPool.Queue.{Served, pool_run-Served}

pub start_threads_total :
    (tid : ℕ → ℕ) (rounds i : ℕ) (ids : List ℕ)
    → i + rounds ≤ length ids
    → (ids' : List ℕ) × (start_threads tid rounds i ids ≡ ok ids')
unfolding start_threads store_id
start_threads_total tid zero i ids h = (ids, refl)
start_threads_total tid (suc rounds) i ids h =
    let (ids', e) =
      start_threads_total tid rounds (i + 1) (set ids i (tid i))
        (omega (arith, length-set ids i (tid i))) in
    (ids', rw (lt→ltb i (length ids) (omega arith)) e)

empty_ring : (c : ℕ) → 0 < c → 0 ≡ slot c 0 0
unfolding slot
empty_ring c h = ground arith

abbrev pub fresh_pool : List Task → ℕ → ℕ → List ℕ → ThreadPool
fresh_pool old_tasks min max ids = record {
  task_q = old_tasks;
  queue_capacity = length old_tasks;
  queue_size = 0;
  queue_front = 0;
  queue_rear = 0;
  thread_ids = ids;
  min_num = min;
  max_num = max;
  busy_num = 0;
  live_num = min;
  exit_num = 0;
  shut_down = false;
}

pub fresh_pool-Holds :
    (old_tasks : List Task) (min max : ℕ) (ids : List ℕ)
    → 0 < length old_tasks
    → Holds (fresh_pool old_tasks min max ids) []
fresh_pool-Holds old_tasks min max ids some_room = record {
  running = refl;
  ring = refl;
  size = refl;
  fits = omega arith;
  front = some_room;
  rear = empty_ring (length old_tasks) some_room;
  entries = λ j lt. absurd (omega arith);
}

-- What `threadPoolCreate` returns, when it has started its threads.
pub thread_pool_create_fresh :
    (tid : ℕ → ℕ) (old_tasks : List Task) (min max : ℕ) (ids : List ℕ)
    → start_threads tid min 0 (replicate max 0) ≡ ok ids
    → thread_pool_create tid 0 old_tasks min max ≡ ok (fresh_pool old_tasks min max ids)
unfolding thread_pool_create
thread_pool_create_fresh tid old_tasks min max ids e =
    ap (λ (o : Outcome (List ℕ)). o >>= λ ids. ok (fresh_pool old_tasks min max ids)) e

-- A pool is created with no more first threads than slots, with room for a task, in memory that
-- happens to hold 0 where `queueSize` lies: then, whatever the threads do, one operation after the
-- other in any interleaving, none faults, and the tasks that went in are those that came out, followed
-- by those that are left, in the same order.
pub created_pool-Served :
    (tid : ℕ → ℕ) (old_tasks : List Task) (min max : ℕ) (es : List Event)
    → min ≤ max
    → 0 < length old_tasks
    → Served [] (thread_pool_create tid 0 old_tasks min max >>= pool_run es)
created_pool-Served tid old_tasks min max es le some_room =
    let (ids, e) =
      start_threads_total tid min 0 (replicate max 0)
        (omega (arith, length-replicate {A = ℕ} max 0)) in
    rw (thread_pool_create_fresh tid old_tasks min max ids e) (
      pool_run-Served (fresh_pool old_tasks min max ids) [] es
        (fresh_pool-Holds old_tasks min max ids some_room))
