-- ===== src/ThreadPool/Closed.antt =====
-- A pool that is shut down: what its threads do from then on.
use my_ceph.Common.{◌≡◌, true, [], Outcome, ok}
use my_ceph.ThreadPool.{ThreadPool}
use my_ceph.ThreadPool.Events.{Trace}

-- The ring of a pool is as it was, and the pool is shut down.
pub record IsClosedFrom (pool pool' : ThreadPool) : Type 0 where
  pub shut : pool'.shut_down ≡ true
  pub ring : pool'.task_q ≡ pool.task_q
  pub size : pool'.queue_size ≡ pool.queue_size
  pub front : pool'.queue_front ≡ pool.queue_front
  pub rear : pool'.queue_rear ≡ pool.queue_rear

-- A run in which no task goes in or comes out.
pub record Idles (pool : ThreadPool) (r : Outcome Trace) : Type 0 where
  pub trace : Trace
  pub ended : r ≡ ok trace
  pub none_in : trace.went_in ≡ []
  pub none_out : trace.came_out ≡ []
  pub closed : IsClosedFrom pool trace.pool
