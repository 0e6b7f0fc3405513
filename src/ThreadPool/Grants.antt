-- ===== src/ThreadPool/Grants.antt =====
-- CRUSH_Research/threadpool.c: `threadPoolCreate` when the system refuses memory or a lock.
use my_ceph.Common.{
  ℕ, ◌≤◌, ◌<◌, ◌==◌, ◌≡◌, refl, arith, Bool, true, false, not, ◌&&◌, if◌then◌else◌, List, [],
  length, replicate, length-replicate, Option, none, some, Outcome, ok, fault, ◌>>=◌,
}
use my_ceph.ThreadPool.{Task, ThreadPool, thread_pool_create, thread_pool_add}
use my_ceph.ThreadPool.Create.{start_threads_total, fresh_pool}

-- Which requests of `threadPoolCreate` are granted: the pool, the thread numbers, the locks with the
-- conditions, and the ring.
pub record Grants : Type 0 where
  pub pool : Bool
  pub thread_ids : Bool
  pub locks : Bool
  pub task_q : Bool

-- `threadPoolCreate` with its ways out. They free `taskQ` if it is not null, where it has not been
-- set: `unset_is_null` says what the memory held. The ring's memory is not tested; where it is
-- refused, there is no entry in it.
unfoldable pub create_if_granted :
    Grants → Bool → (ℕ → ℕ) → ℕ → List Task → ℕ → ℕ → Outcome (Option ThreadPool)
create_if_granted granted unset_is_null tid old_size old_tasks min max =
    if not granted.pool
    then ok none
    else if not (granted.thread_ids && granted.locks)
    then (if unset_is_null then ok none else fault)
    else (do
      pool ← thread_pool_create tid old_size old_tasks min max
      ok (some (if granted.task_q then pool else record pool { task_q = [] })))

-- If only the ring is refused, `threadPoolCreate`, with no more first threads than slots and room for a
-- task, and in memory that holds 0 where `queueSize` lies, still returns a pool; and adding any task to
-- that pool is a fault.
pub thread_pool_add-create_if_granted :
    (granted : Grants) (unset_is_null : Bool) (tid : ℕ → ℕ) (old_tasks : List Task) (min max : ℕ)
    → granted.pool ≡ true
    → granted.thread_ids ≡ true
    → granted.locks ≡ true
    → granted.task_q ≡ false
    → min ≤ max
    → 0 < length old_tasks
    → (pool : ThreadPool) × (create_if_granted granted unset_is_null tid 0 old_tasks min max
        ≡ ok (some pool))
      × ((task : Task) → thread_pool_add pool task ≡ fault)
unfolding create_if_granted thread_pool_create thread_pool_add
thread_pool_add-create_if_granted granted unset_is_null tid old_tasks min max p i l q le room =
    let (ids, e) =
      start_threads_total tid min 0 (replicate max 0)
        (omega (arith, length-replicate {A = ℕ} max 0)) in
    (
      record (fresh_pool old_tasks min max ids) { task_q = [] },
      rw (p, i, l, q, e) refl,
      λ task. rw (not_full (length old_tasks) room) refl,
    )
  where
    not_full : (n : ℕ) → 0 < n → (0 == n) ≡ false
    not_full n h = ground arith
