-- ===== src/ThreadPool/Crew.antt =====
-- CRUSH_Research/threadpool.c: the threads of a pool, each with its number and where it stands in
-- `worker`, beside the pool that they share. A running pool only.
pub mod Sums
pub mod Count
pub mod Signal
pub mod Move
pub mod Step
pub mod Start
pub mod Acts
pub mod Invariant
pub mod Create
pub mod Alert
pub mod Finish
use my_ceph.Common.{
  ℕ, zero, suc, ◌+◌, ◌==◌, ◌&&◌, not, if◌then◌else◌, Bool, true, false, List, [], ◌∷◌, ◌++◌,
  get_elem?, set, Option, none, some, Outcome, ok, ◌>>=◌, replicate,
}
use my_ceph.ThreadPool.{
  Task, ThreadPool, Added, must_wait, refused, added, thread_pool_add, Taken, sleeps, leaves, took,
  worker_take, worker_woken, worker_busy, worker_idle, thread_exit, manager_grow, manager_shrink,
  thread_pool_create,
}

-- Where a thread stands: before the lock at the head of `worker`; in `pthread_cond_wait`, before and
-- behind a signal; with a task before it is counted as busy; in the task; before `threadExit`; and at its end.
pub data Stage : Type 0 where
  at_head : Stage
  waits : Stage
  woken : Stage
  has_task : Task → Stage
  runs : Task → Stage
  exiting : Stage
  gone : Stage

pub record Thread : Type 0 where
  pub id : ℕ
  pub stage : Stage

-- The pool and its threads, with the history of the tasks that were added and of those that ended.
pub record Crew : Type 0 where
  pub pool : ThreadPool
  pub threads : List Thread
  pub added_tasks : List Task
  pub ended_tasks : List Task

unfoldable pub after_look : ThreadPool → Taken → Stage × ThreadPool
after_look pool sleeps = (waits, pool)
after_look pool leaves = (exiting, pool)
after_look pool (took task pool') = (has_task task, pool')

-- The head of the loop, with the lock.
unfoldable pub look : ThreadPool → Outcome (Stage × ThreadPool)
unfolding after_look
look pool = do t ← worker_take pool; ok (after_look pool t)

-- Behind `pthread_cond_wait`, which has taken the lock again: leave, or look once more.
unfoldable pub wake : Bool × ThreadPool → Outcome (Stage × ThreadPool)
unfolding look
wake (true, pool) = ok (exiting, pool)
wake (false, pool) = look pool

-- What a thread does next.
unfoldable pub thread_step : ThreadPool → ℕ → Stage → Outcome (Stage × ThreadPool)
unfolding look wake
thread_step pool id at_head = look pool
thread_step pool id waits = ok (waits, pool)
thread_step pool id woken = wake (worker_woken pool)
thread_step pool id (has_task task) = ok (runs task, worker_busy pool)
thread_step pool id (runs task) = ok (at_head, worker_idle pool)
thread_step pool id exiting = ok (gone, thread_exit pool id)
thread_step pool id gone = ok (gone, pool)

-- The tasks that a step ends.
unfoldable pub ended_by : Stage → List Task
ended_by (runs task) = task ∷ []
ended_by at_head = []
ended_by waits = []
ended_by woken = []
ended_by (has_task task) = []
ended_by exiting = []
ended_by gone = []

-- The threads that the manager has started in free slots, by the slots before and behind.
unfoldable pub new_threads : List ℕ → List ℕ → List Thread
new_threads [] ids' = []
new_threads (id ∷ ids) [] = []
new_threads (id ∷ ids) (id' ∷ ids') =
    let rest = new_threads ids ids' in
    if id == 0 && not (id' == 0) then record { id = id'; stage = at_head } ∷ rest else rest

unfoldable pub is_waiting : Stage → Bool
is_waiting waits = true
is_waiting at_head = false
is_waiting woken = false
is_waiting (has_task task) = false
is_waiting (runs task) = false
is_waiting exiting = false
is_waiting gone = false

-- The first thread that waits is woken, if one does.
unfoldable pub rouse_first : List Thread → List Thread
unfolding is_waiting
rouse_first [] = []
rouse_first (t ∷ ts) =
    let rest = rouse_first ts in
    if is_waiting t.stage then record t { stage = woken } ∷ ts else t ∷ rest

-- `pthread_cond_signal(&pool->notEmpty)`: one of the threads that wait is woken, if any does. It is the
-- one at index `k`, or the first if that one does not wait.
unfoldable pub rouse_at : ℕ → Option Thread → List Thread → List Thread
unfolding rouse_first
rouse_at k none ts = rouse_first ts
rouse_at k (some t) ts =
    if is_waiting t.stage then set ts k (record t { stage = woken }) else rouse_first ts

abbrev pub rouse : ℕ → List Thread → List Thread
rouse k ts = rouse_at k (get_elem? ts k) ts

-- What happens next: the thread at an index moves, a client adds a task, the manager acts on the
-- numbers that it has read before, or a thread is woken: by a signal of the manager, or by none, as
-- `pthread_cond_wait` may end without one. A number beside a task picks the thread that its signal wakes.
pub data Action : Type 0 where
  moves : ℕ → Action
  adds : Task → ℕ → Action
  signals : ℕ → Action
  grows : (ℕ → ℕ) → ℕ → ℕ → Action
  shrinks : ℕ → ℕ → Action

unfoldable pub move_thread : ℕ → Option Thread → Crew → Outcome Crew
unfolding thread_step ended_by
move_thread i none crew = ok crew
move_thread i (some t) crew = do
  (stage, pool) ← thread_step crew.pool t.id t.stage
  ok (record crew {
    pool = pool;
    threads = set crew.threads i (record t { stage = stage });
    ended_tasks = ended_by t.stage ++ crew.ended_tasks;
  })

unfoldable pub after_client : Task → ℕ → Crew → Added → Crew
unfolding rouse_at
after_client task k crew must_wait = crew
after_client task k crew refused = crew
after_client task k crew (added pool) = record crew {
  pool = pool;
  threads = rouse k crew.threads;
  added_tasks = task ∷ crew.added_tasks;
}

unfoldable pub crew_step : Action → Crew → Outcome Crew
unfolding move_thread after_client new_threads
crew_step (moves i) crew = move_thread i (get_elem? crew.threads i) crew
crew_step (adds task k) crew = do
  a ← thread_pool_add crew.pool task
  ok (after_client task k crew a)
crew_step (signals k) crew = ok (record crew { threads = rouse k crew.threads })
crew_step (grows tid queue_size live_num) crew =
    let pool = manager_grow tid queue_size live_num crew.pool in
    ok (record crew {
      pool = pool;
      threads = crew.threads ++ new_threads crew.pool.thread_ids pool.thread_ids;
    })
crew_step (shrinks busy_num live_num) crew =
    ok (record crew { pool = manager_shrink busy_num live_num crew.pool })

unfoldable pub crew_run : List Action → Crew → Outcome Crew
unfolding crew_step
crew_run [] crew = ok crew
crew_run (a ∷ rest) crew = do crew' ← crew_step a crew; crew_run rest crew'

-- A pool that is created, with its first threads.
unfoldable pub create_crew : (ℕ → ℕ) → ℕ → List Task → ℕ → ℕ → Outcome Crew
unfolding new_threads
create_crew tid old_size old_tasks min max = do
  pool ← thread_pool_create tid old_size old_tasks min max
  ok record {
    pool = pool;
    threads = new_threads (replicate max 0) pool.thread_ids;
    added_tasks = [];
    ended_tasks = [];
  }
