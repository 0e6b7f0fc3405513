-- ===== src/ThreadPool/Events.antt =====
-- The operations of the pool as events, and a run as a sequence of them.
use my_ceph.Common.{ℕ, List, [], ◌∷◌, ◌++◌, Outcome, ok, ◌>>=◌}
use my_ceph.ThreadPool.{
  Task, ThreadPool, Added, must_wait, refused, added, thread_pool_add, Taken, sleeps, leaves, took,
  worker_take, worker_woken, worker_busy, worker_idle, thread_exit, manager_grow, manager_shrink,
}

-- What a thread may do next: one operation between a lock and its unlock.
pub data Event : Type 0 where
  add_task : Task → Event
  take_task : Event
  wake_up : Event
  begin_task : Event
  end_task : Event
  exit_thread : ℕ → Event
  grow_pool : (ℕ → ℕ) → ℕ → ℕ → Event
  shrink_pool : ℕ → ℕ → Event

-- The tasks that went into the pool and the tasks that came out of it, in order, and the pool.
pub record Trace : Type 0 where
  pub went_in : List Task
  pub came_out : List Task
  pub pool : ThreadPool

unfoldable pub after_add : ThreadPool → Task → Added → Trace
after_add pool task must_wait = record { went_in = []; came_out = []; pool = pool }
after_add pool task refused = record { went_in = []; came_out = []; pool = pool }
after_add pool task (added pool') = record { went_in = task ∷ []; came_out = []; pool = pool' }

unfoldable pub after_take : ThreadPool → Taken → Trace
after_take pool sleeps = record { went_in = []; came_out = []; pool = pool }
after_take pool leaves = record { went_in = []; came_out = []; pool = pool }
after_take pool (took task pool') = record { went_in = []; came_out = task ∷ []; pool = pool' }

abbrev pub quiet : ThreadPool → Trace
quiet pool = record { went_in = []; came_out = []; pool = pool }

unfoldable pub pool_step : ThreadPool → Event → Outcome Trace
unfolding after_add after_take
pool_step pool (add_task task) = do a ← thread_pool_add pool task; ok (after_add pool task a)
pool_step pool take_task = do t ← worker_take pool; ok (after_take pool t)
pool_step pool wake_up = ok (quiet (worker_woken pool).1)
pool_step pool begin_task = ok (quiet (worker_busy pool))
pool_step pool end_task = ok (quiet (worker_idle pool))
pool_step pool (exit_thread tid) = ok (quiet (thread_exit pool tid))
pool_step pool (grow_pool tid queue_size live_num) =
    ok (quiet (manager_grow tid queue_size live_num pool))
pool_step pool (shrink_pool busy_num live_num) = ok (quiet (manager_shrink busy_num live_num pool))

unfoldable pub pool_run : List Event → ThreadPool → Outcome Trace
unfolding pool_step
pool_run [] pool = ok (quiet pool)
pool_run (e ∷ es) pool = do
  first ← pool_step pool e
  rest ← pool_run es first.pool
  ok record {
    went_in = first.went_in ++ rest.went_in;
    came_out = first.came_out ++ rest.came_out;
    pool = rest.pool;
  }
