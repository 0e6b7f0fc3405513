-- ===== src/ThreadPool.antt =====
-- CRUSH_Research/threadpool.c: a pool of threads over a ring of tasks. Each operation is what a
-- thread does between a lock and the unlock, which no other thread divides: adding a task, taking
-- one, waking up, growing the pool. Where a thread waits on a condition, its operation says so.
pub mod Ring
pub mod Fifo
pub mod Events
pub mod Queue
pub mod Create
pub mod Threads
pub mod Closed
pub mod Drain
pub mod Grants
pub mod Staff
pub mod Crew
use my_ceph.Common.{
  ℕ, zero, suc, ◌+◌, ◌-◌, ◌*◌, ◌%◌, ◌==◌, ltb, leb, ◌&&◌, not, if◌then◌else◌, Bool, true, false,
  List, [], ◌∷◌, get_elem?, set, length, replicate, Outcome, ok, fault, from_option, ◌>>=◌,
}

-- A function pointer and its argument, by their addresses.
pub record Task : Type 0 where
  pub function : ℕ
  pub arg : ℕ

-- The state that the threads share, less the locks, the conditions and the manager's number. A
-- thread's number is 0 where its slot is free.
pub record ThreadPool : Type 0 where
  pub task_q : List Task
  pub queue_capacity : ℕ
  pub queue_size : ℕ
  pub queue_front : ℕ
  pub queue_rear : ℕ
  pub thread_ids : List ℕ
  pub min_num : ℕ
  pub max_num : ℕ
  pub busy_num : ℕ
  pub live_num : ℕ
  pub exit_num : ℕ
  pub shut_down : Bool

-- `const int NUMBER`
abbrev pub number : ℕ
number = 2

-- `pool->threadIDs[i] = tid`
unfoldable pub store_id : List ℕ → ℕ → ℕ → Outcome (List ℕ)
store_id ids i tid = if ltb i (length ids) then ok (set ids i tid) else fault

-- The loop that creates the first threads; `tid i` is the number that `pthread_create` gives.
unfoldable pub start_threads : (ℕ → ℕ) → ℕ → ℕ → List ℕ → Outcome (List ℕ)
unfolding store_id
start_threads tid zero i ids = ok ids
start_threads tid (suc rounds) i ids = do
  ids' ← store_id ids i (tid i)
  start_threads tid rounds (i + 1) ids'

-- `threadPoolCreate`, where every allocation succeeds. `queueSize` and the tasks are not set, so
-- what the memory held before stays: `old_size` and `old_tasks`.
unfoldable pub thread_pool_create : (ℕ → ℕ) → ℕ → List Task → ℕ → ℕ → Outcome ThreadPool
unfolding start_threads
thread_pool_create tid old_size old_tasks min max = do
  ids ← start_threads tid min 0 (replicate max 0)
  ok record {
    task_q = old_tasks;
    queue_capacity = length old_tasks;
    queue_size = old_size;
    queue_front = 0;
    queue_rear = 0;
    thread_ids = ids;
    min_num = min;
    max_num = max;
    busy_num = 0;
    live_num = min;
    exit_num = 0;
    shut_down = false;
  }

-- What `threadPoolAdd` does with the lock in its hand.
pub data Added : Type 0 where
  must_wait : Added
  refused : Added
  added : ThreadPool → Added

unfoldable pub thread_pool_add : ThreadPool → Task → Outcome Added
thread_pool_add pool task =
    if pool.queue_size == pool.queue_capacity && not pool.shut_down
    then ok must_wait
    else if pool.shut_down
    then ok refused
    else if ltb pool.queue_rear (length pool.task_q)
    then ok (
        added (record pool {
          task_q = set pool.task_q pool.queue_rear task;
          queue_rear = (pool.queue_rear + 1) % pool.queue_capacity;
          queue_size = pool.queue_size + 1;
        }))
    else fault

-- What `worker` does with the lock in its hand, at the head of its inner loop.
pub data Taken : Type 0 where
  sleeps : Taken
  leaves : Taken
  took : Task → ThreadPool → Taken

unfoldable pub worker_take : ThreadPool → Outcome Taken
worker_take pool =
    if pool.queue_size == 0 && not pool.shut_down
    then ok sleeps
    else if pool.shut_down
    then ok leaves
    else (do
      task ← from_option (get_elem? pool.task_q pool.queue_front)
      ok (
          took task (record pool {
            queue_front = (pool.queue_front + 1) % pool.queue_capacity;
            queue_size = pool.queue_size - 1;
          })))

-- Behind `pthread_cond_wait` in `worker`: does the thread leave, and the pool.
unfoldable pub worker_woken : ThreadPool → Bool × ThreadPool
worker_woken pool =
    if ltb 0 pool.exit_num
    then (if ltb pool.min_num pool.live_num
        then (true, record pool { exit_num = pool.exit_num - 1; live_num = pool.live_num - 1 })
        else (false, record pool { exit_num = pool.exit_num - 1 }))
    else (false, pool)

-- Before and after a worker runs its task.
pub worker_busy : ThreadPool → ThreadPool
worker_busy pool = record pool { busy_num = pool.busy_num + 1 }

pub worker_idle : ThreadPool → ThreadPool
worker_idle pool = record pool { busy_num = pool.busy_num - 1 }

pub thread_pool_busy_num : ThreadPool → ℕ
thread_pool_busy_num pool = pool.busy_num

pub thread_pool_alive_num : ThreadPool → ℕ
thread_pool_alive_num pool = pool.live_num

-- The loop of `threadExit`: the first slot that holds the thread's number becomes free.
unfoldable pub free_slot : ℕ → List ℕ → List ℕ
free_slot tid [] = []
free_slot tid (id ∷ ids) = let rest = free_slot tid ids in if id == tid then 0 ∷ ids else id ∷ rest

unfoldable pub thread_exit : ThreadPool → ℕ → ThreadPool
unfolding free_slot
thread_exit pool tid = record pool { thread_ids = free_slot tid pool.thread_ids }

-- The loop of `manager` that fills free slots, with the number of live threads that it has read
-- before; `tid i` is the number that `pthread_create` gives for slot i. Beside the slots, how many
-- threads it has created.
pub grow : (ℕ → ℕ) → ℕ → ℕ → ℕ → ℕ → List ℕ → List ℕ × ℕ
grow tid live_num max_num i counter [] = ([], counter)
grow tid live_num max_num i counter (id ∷ ids) =
    let kept = grow tid live_num max_num (i + 1) counter ids in
    let filled = grow tid live_num max_num (i + 1) (counter + 1) ids in
    if ltb counter number && ltb live_num max_num
    then (if id == 0 then (tid i ∷ filled.0, filled.1) else (id ∷ kept.0, kept.1))
    else (id ∷ ids, counter)

pub manager_grow : (ℕ → ℕ) → ℕ → ℕ → ThreadPool → ThreadPool
unfolding grow
manager_grow tid queue_size live_num pool =
    if leb 1 queue_size && ltb live_num pool.max_num
    then (let (ids, created) = grow tid live_num pool.max_num 0 0 pool.thread_ids in
        record pool { thread_ids = ids; live_num = pool.live_num + created })
    else pool

-- The end of a round of `manager`, with the numbers that it has read before.
pub manager_shrink : ℕ → ℕ → ThreadPool → ThreadPool
manager_shrink busy_num live_num pool =
    if ltb (busy_num * 2) live_num && ltb pool.min_num live_num
    then record pool { exit_num = number }
    else pool
