-- ===== src/ThreadPool/Queue.antt =====
-- Any interleaving of the operations of the pool, as a sequence of events, against a queue.
use mathlib.Core.List.{append-nil, append_assoc}
use my_ceph.Common.{
  ℕ, ◌+◌, ◌-◌, ◌*◌, ltb, leb, ◌&&◌, if◌then◌else◌, ◌≡◌, refl, sym, ap, ◌∙◌, arith, ℕ_discrete, Bool,
  List, [], ◌∷◌, ◌++◌, Outcome, ok,
}
use my_ceph.ThreadPool.{
  Task, ThreadPool, worker_woken, worker_busy, worker_idle, thread_exit, manager_grow,
  manager_shrink, number,
}
use my_ceph.ThreadPool.Fifo.{
  Holds, thread_pool_add-Holds, thread_pool_add_full, worker_take-Holds, worker_take_empty,
}
use my_ceph.ThreadPool.Events.{
  Event, add_task, take_task, wake_up, begin_task, end_task, exit_thread, grow_pool, shrink_pool,
  Trace, after_add, after_take, quiet, pool_step, pool_run,
}

-- A run on a pool that holds `tasks` came to its end, and what was in the queue and what went in is
-- what came out and what is left, in order.
pub record Served (tasks : List Task) (r : Outcome Trace) : Type 0 where
  pub trace : Trace
  pub left : List Task
  pub ended : r ≡ ok trace
  pub in_order : tasks ++ trace.went_in ≡ trace.came_out ++ left
  pub holds : Holds trace.pool left

quiet-Served :
    (pool' : ThreadPool) (tasks : List Task) → Holds pool' tasks → Served tasks (ok (quiet pool'))
quiet-Served pool' tasks h = record {
  trace = quiet pool';
  left = tasks;
  ended = refl;
  in_order = append-nil tasks;
  holds = h;
}

-- The operations that leave the ring alone.
same_ring :
    {pool : ThreadPool} {tasks : List Task} (ids : List ℕ) (busy live exits : ℕ)
    → Holds pool tasks
    → Holds
        (record pool { thread_ids = ids; busy_num = busy; live_num = live; exit_num = exits })
        tasks
same_ring ids busy live exits h = record {
  running = h.running;
  ring = h.ring;
  size = h.size;
  fits = h.fits;
  front = h.front;
  rear = h.rear;
  entries = h.entries;
}

Holds-if :
    (b : Bool) {p q : ThreadPool} {tasks : List Task}
    → Holds p tasks
    → Holds q tasks
    → Holds (if b then p else q) tasks
Holds-if Bool.true hp hq = hp
Holds-if Bool.false hp hq = hq

abbrev pool_of : Bool × ThreadPool → ThreadPool
pool_of r = r.1

pub worker_woken-Holds :
    (pool : ThreadPool) (tasks : List Task) → Holds pool tasks → Holds (worker_woken pool).1 tasks
unfolding worker_woken
worker_woken-Holds pool tasks h = by_cases (ltb 0 pool.exit_num) (ltb pool.min_num pool.live_num)
  where
    by_cases :
        (a b : Bool)
        → Holds
            (pool_of (
              if a
              then (if b
                  then (
                    Bool.true,
                    record pool { exit_num = pool.exit_num - 1; live_num = pool.live_num - 1 },
                  )
                  else (Bool.false, record pool { exit_num = pool.exit_num - 1 }))
              else (Bool.false, pool)))
            tasks
    by_cases Bool.true Bool.true =
        same_ring pool.thread_ids pool.busy_num (pool.live_num - 1) (pool.exit_num - 1) h
    by_cases Bool.true Bool.false =
        same_ring pool.thread_ids pool.busy_num pool.live_num (pool.exit_num - 1) h
    by_cases Bool.false b = h

pub pool_step-Served :
    (pool : ThreadPool) (tasks : List Task) (e : Event)
    → Holds pool tasks
    → Served tasks (pool_step pool e)
unfolding pool_step after_add after_take worker_busy worker_idle thread_exit manager_grow
    manager_shrink
pool_step-Served pool tasks (add_task task) h =
    elim (ℕ_discrete pool.queue_size pool.queue_capacity) [
      | yes p ↦ record {
        trace = quiet pool;
        left = tasks;
        ended = rw (thread_pool_add_full pool tasks task h p) refl;
        in_order = append-nil tasks;
        holds = h;
      }
      | no ne ↦
          let (pool', e, h') = thread_pool_add-Holds pool tasks task h (omega (arith, h.fits)) in
          record {
            trace = record { went_in = task ∷ []; came_out = []; pool = pool' };
            left = tasks ++ (task ∷ []);
            ended = rw e refl;
            in_order = refl;
            holds = h';
          }
    ]
pool_step-Served pool [] take_task h = record {
  trace = quiet pool;
  left = [];
  ended = rw (worker_take_empty pool h) refl;
  in_order = refl;
  holds = h;
}
pool_step-Served pool (task ∷ tasks) take_task h =
    let (pool', e, h') = worker_take-Holds pool task tasks h in
    record {
      trace = record { went_in = []; came_out = task ∷ []; pool = pool' };
      left = tasks;
      ended = rw e refl;
      in_order = append-nil (task ∷ tasks);
      holds = h';
    }
pool_step-Served pool tasks wake_up h =
    quiet-Served (worker_woken pool).1 tasks (worker_woken-Holds pool tasks h)
pool_step-Served pool tasks begin_task h =
    quiet-Served _ tasks
      (same_ring pool.thread_ids (pool.busy_num + 1) pool.live_num pool.exit_num h)
pool_step-Served pool tasks end_task h =
    quiet-Served _ tasks
      (same_ring pool.thread_ids (pool.busy_num - 1) pool.live_num pool.exit_num h)
pool_step-Served pool tasks (exit_thread tid) h =
    quiet-Served _ tasks (same_ring _ pool.busy_num pool.live_num pool.exit_num h)
pool_step-Served pool tasks (grow_pool tid queue_size live_num) h = quiet-Served _ tasks (
    Holds-if (leb 1 queue_size && ltb live_num pool.max_num)
      (same_ring _ pool.busy_num _ pool.exit_num h) h)
pool_step-Served pool tasks (shrink_pool busy_num live_num) h = quiet-Served _ tasks (
    Holds-if (ltb (busy_num * 2) live_num && ltb pool.min_num live_num)
      (same_ring pool.thread_ids pool.busy_num pool.live_num number h) h)

-- Whatever the threads of a running pool do, one operation after the other in any interleaving, no
-- operation reads or writes outside the ring; and the tasks that were in the queue, followed by those
-- that went in, are those that came out, followed by those that are left: none is lost, none runs
-- twice, and they come out in the order in which they went in.
pub pool_run-Served :
    (pool : ThreadPool) (tasks : List Task) (es : List Event)
    → Holds pool tasks
    → Served tasks (pool_run es pool)
unfolding pool_run
pool_run-Served pool tasks [] h = quiet-Served pool tasks h
pool_run-Served pool tasks (e ∷ es) h =
    let first = pool_step-Served pool tasks e h in
    let rest = pool_run-Served first.trace.pool first.left es first.holds in
    record {
      trace = record {
        went_in = first.trace.went_in ++ rest.trace.went_in;
        came_out = first.trace.came_out ++ rest.trace.came_out;
        pool = rest.trace.pool;
      };
      left = rest.left;
      ended = rw (first.ended, rest.ended) refl;
      in_order =
          sym (append_assoc tasks first.trace.went_in rest.trace.went_in)
          ∙ ap (λ (ts : List Task). ts ++ rest.trace.went_in) first.in_order
          ∙ append_assoc first.trace.came_out first.left rest.trace.went_in
          ∙ ap (λ (ts : List Task). first.trace.came_out ++ ts) rest.in_order
          ∙ sym (append_assoc first.trace.came_out rest.trace.came_out rest.left);
      holds = rest.holds;
    }
