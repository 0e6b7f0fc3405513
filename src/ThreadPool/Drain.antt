-- ===== src/ThreadPool/Drain.antt =====
-- Every task of a running pool is taken once its workers have taken often enough.
use mathlib.Core.List.{append_assoc}
use my_ceph.Common.{
  ℕ, ◌+◌, ◌≤◌, ◌≡◌, refl, sym, ap, ◌∙◌, subst, arith, Bool, true, false, if◌then◌else◌, List, [],
  ◌∷◌, ◌++◌, length, Outcome, ok, ok-inj, >>=-eq-ok,
}
use my_ceph.ThreadPool.{Task, ThreadPool, must_wait, refused, added, thread_pool_add, Added}
use my_ceph.ThreadPool.Fifo.{Holds, worker_take-Holds}
use my_ceph.ThreadPool.Events.{
  Event, add_task, take_task, wake_up, begin_task, end_task, exit_thread, grow_pool, shrink_pool,
  Trace, after_add, after_take, pool_step, pool_run,
}
use my_ceph.ThreadPool.Queue.{pool_step-Served, pool_run-Served}

-- Is the event a worker at the head of its loop?
abbrev pub is_take : Event → Bool
is_take take_task = true
is_take _ = false

unfoldable pub count_takes : List Event → ℕ
count_takes [] = 0
count_takes (e ∷ es) = let rest = count_takes es in if is_take e then rest + 1 else rest

-- A run in which `tasks` come out first.
pub record Drains (tasks : List Task) (r : Outcome Trace) : Type 0 where
  pub trace : Trace
  pub more : List Task
  pub ended : r ≡ ok trace
  pub first : trace.came_out ≡ tasks ++ more

after_add-came_out :
    (pool : ThreadPool) (task : Task) (a : Added) → (after_add pool task a).came_out ≡ []
unfolding after_add
after_add-came_out pool task must_wait = refl
after_add-came_out pool task refused = refl
after_add-came_out pool task (added pool') = refl

-- Only a worker that takes brings a task out.
pool_step_none_out :
    (pool : ThreadPool) (e : Event) (t : Trace)
    → is_take e ≡ false
    → pool_step pool e ≡ ok t
    → t.came_out ≡ []
unfolding pool_step
pool_step_none_out pool (add_task task) t n h =
    let (a, ea, k) = >>=-eq-ok (thread_pool_add pool task) _ h in
    ap (λ (u : Trace). u.came_out) (sym (ok-inj k)) ∙ after_add-came_out pool task a
pool_step_none_out pool take_task t n h = absurd (cc)
pool_step_none_out pool wake_up t n h = ap (λ (u : Trace). u.came_out) (sym (ok-inj h))
pool_step_none_out pool begin_task t n h = ap (λ (u : Trace). u.came_out) (sym (ok-inj h))
pool_step_none_out pool end_task t n h = ap (λ (u : Trace). u.came_out) (sym (ok-inj h))
pool_step_none_out pool (exit_thread tid) t n h = ap (λ (u : Trace). u.came_out) (sym (ok-inj h))
pool_step_none_out pool (grow_pool tid size live) t n h =
    ap (λ (u : Trace). u.came_out) (sym (ok-inj h))
pool_step_none_out pool (shrink_pool busy live) t n h =
    ap (λ (u : Trace). u.came_out) (sym (ok-inj h))

-- A run from its first step and the rest.
then_run :
    (pool : ThreadPool) (e : Event) (es : List Event) (t : Trace) (tasks ts : List Task)
    → pool_step pool e ≡ ok t
    → t.came_out ++ ts ≡ tasks
    → Drains ts (pool_run es t.pool)
    → Drains tasks (pool_run (e ∷ es) pool)
unfolding pool_run
then_run pool e es t tasks ts h out d = record {
  trace = record {
    went_in = t.went_in ++ d.trace.went_in;
    came_out = t.came_out ++ d.trace.came_out;
    pool = d.trace.pool;
  };
  more = d.more;
  ended = rw (h, d.ended) refl;
  first =
      ap (λ (l : List Task). t.came_out ++ l) d.first
      ∙ sym (append_assoc t.came_out ts d.more)
      ∙ ap (λ (l : List Task). l ++ d.more) out;
}

-- What is in the ring behind a step that takes nothing.
left_behind :
    (tasks extra left : List Task) (t : Trace)
    → t.came_out ≡ []
    → (tasks ++ extra) ++ t.went_in ≡ t.came_out ++ left
    → left ≡ tasks ++ (extra ++ t.went_in)
left_behind tasks extra left t none e =
    sym (ap (λ (l : List Task). l ++ left) none) ∙ sym e ∙ append_assoc tasks extra t.went_in

-- If the ring of a running pool holds `tasks` and then `extra`, and if among the operations of its
-- threads and clients, in any order, there are at least as many visits of a worker to the head of its
-- loop as there are `tasks`, then the run returns and the first tasks that come out are `tasks`, in
-- order.
pub pool_run-Drains :
    (pool : ThreadPool) (tasks extra : List Task) (es : List Event)
    → Holds pool (tasks ++ extra)
    → length tasks ≤ count_takes es
    → Drains tasks (pool_run es pool)
unfolding count_takes pool_step after_take
pool_run-Drains pool [] extra es h le =
    let s = pool_run-Served pool extra es h in
    record { trace = s.trace; more = s.trace.came_out; ended = s.ended; first = refl }
pool_run-Drains pool (task ∷ tasks) extra [] h le = absurd (omega arith)
pool_run-Drains pool (task ∷ tasks) extra (take_task ∷ es) h le =
    let (pool', e, h') = worker_take-Holds pool task (tasks ++ extra) h in
    then_run pool take_task es (record { went_in = []; came_out = task ∷ []; pool = pool' })
      (task ∷ tasks) tasks (rw e refl) refl (pool_run-Drains pool' tasks extra es h' (omega arith))
pool_run-Drains pool (task ∷ tasks) extra (e ∷ es) h le =
    let s = pool_step-Served pool ((task ∷ tasks) ++ extra) e h in
    let none = pool_step_none_out pool e s.trace refl s.ended in
    then_run pool e es s.trace (task ∷ tasks) (task ∷ tasks) s.ended
      (ap (λ (l : List Task). l ++ (task ∷ tasks)) none)
      (pool_run-Drains s.trace.pool (task ∷ tasks) (extra ++ s.trace.went_in) es
        (subst (Holds s.trace.pool)
          (left_behind (task ∷ tasks) extra s.left s.trace none s.in_order) s.holds)
        le)
