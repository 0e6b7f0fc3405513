-- ===== src/ThreadPool/Fifo.antt =====
-- The ring of tasks is a queue: tasks are taken in the order in which they were added.
use my_ceph.Common.{
  ℕ, suc, ◌+◌, ◌-◌, ◌%◌, ◌≤◌, ◌<◌, ◌==◌, ltb, ◌≡◌, refl, sym, ap, ◌∙◌, subst, arith, lt→ltb, dec_lt,
  true, false, List, [], ◌∷◌, ◌++◌, get_elem?, set, length, length-append, length-set,
  get_elem?-set_self, get_elem?-set_ne, some, ok,
}
use my_ceph.ThreadPool.{
  Task, ThreadPool, must_wait, added, thread_pool_add, sleeps, took, worker_take,
}
use my_ceph.ThreadPool.Ring.{
  slot, slot-ne, slot-slot, slot-front, slot-zero, slot-below, mod-suc, get_elem?-++-left,
  get_elem?-++-last,
}

-- The pool runs and its ring holds the tasks, the oldest one first.
pub record Holds (pool : ThreadPool) (tasks : List Task) : Type 0 where
  pub running : pool.shut_down ≡ false
  pub ring : length pool.task_q ≡ pool.queue_capacity
  pub size : pool.queue_size ≡ length tasks
  pub fits : pool.queue_size ≤ pool.queue_capacity
  pub front : pool.queue_front < pool.queue_capacity
  pub rear : pool.queue_rear ≡ slot pool.queue_capacity pool.queue_front pool.queue_size
  pub entries :
      (j : ℕ)
      → j < length tasks
      → get_elem? pool.task_q (slot pool.queue_capacity pool.queue_front j) ≡ get_elem? tasks j

-- The pool after a task is added, and after one is taken.
abbrev pub with_task : ThreadPool → Task → ThreadPool
with_task pool task = record pool {
  task_q = set pool.task_q pool.queue_rear task;
  queue_rear = (pool.queue_rear + 1) % pool.queue_capacity;
  queue_size = pool.queue_size + 1;
}

abbrev pub less_task : ThreadPool → ThreadPool
less_task pool = record pool {
  queue_front = (pool.queue_front + 1) % pool.queue_capacity;
  queue_size = pool.queue_size - 1;
}

pub with_task-Holds :
    (pool : ThreadPool) (tasks : List Task) (task : Task)
    → Holds pool tasks
    → pool.queue_size < pool.queue_capacity
    → Holds (with_task pool task) (tasks ++ (task ∷ []))
with_task-Holds pool tasks task h room = record {
  running = h.running;
  ring = length-set pool.task_q pool.queue_rear task ∙ h.ring;
  size = omega (arith, length-append tasks (task ∷ []), h.size);
  fits = omega arith;
  front = h.front;
  rear = next;
  entries = entry;
}
  where
    c : ℕ
    c = pool.queue_capacity

    rear_in : pool.queue_rear < pool.queue_capacity
    rear_in = omega (
      arith,
      h.rear,
      slot-below pool.queue_capacity pool.queue_front pool.queue_size h.front room,
    )

    next :
        (pool.queue_rear + 1) % pool.queue_capacity
        ≡ slot pool.queue_capacity pool.queue_front (pool.queue_size + 1)
    next =
        mod-suc pool.queue_capacity pool.queue_rear rear_in
        ∙ ap (λ (r : ℕ). slot pool.queue_capacity r 1) h.rear
        ∙ slot-slot pool.queue_capacity pool.queue_front pool.queue_size h.front room

    entry :
        (j : ℕ)
        → j < length (tasks ++ (task ∷ []))
        → get_elem?
            (set pool.task_q pool.queue_rear task)
            (slot pool.queue_capacity pool.queue_front j)
          ≡ get_elem? (tasks ++ (task ∷ [])) j
    entry j lt = elim (dec_lt j (length tasks)) [
      | yes p ↦
          get_elem?-set_ne pool.task_q task (λ e.
            slot-ne pool.queue_capacity pool.queue_front j pool.queue_size h.front
              (omega (arith, h.size)) room (sym h.rear ∙ e))
          ∙ h.entries j p
          ∙ sym (get_elem?-++-left tasks (task ∷ []) j p)
      | no p ↦
          subst
            (λ k.
              get_elem? (set pool.task_q pool.queue_rear task)
                (slot pool.queue_capacity pool.queue_front k)
              ≡ get_elem? (tasks ++ (task ∷ [])) k)
            (omega (arith, length-append tasks (task ∷ [])))
            (last ∙ sym (get_elem?-++-last tasks task))
    ]
      where
        last :
            get_elem?
              (set pool.task_q pool.queue_rear task)
              (slot pool.queue_capacity pool.queue_front (length tasks))
            ≡ some task
        last =
            ap (λ (k : ℕ). get_elem? (set pool.task_q pool.queue_rear task) k)
              (ap (slot pool.queue_capacity pool.queue_front) (sym h.size) ∙ sym h.rear)
            ∙ get_elem?-set_self pool.task_q pool.queue_rear task (omega (arith, rear_in, h.ring))

pub less_task-Holds :
    (pool : ThreadPool) (task : Task) (tasks : List Task)
    → Holds pool (task ∷ tasks)
    → Holds (less_task pool) tasks
less_task-Holds pool task tasks h = record {
  running = h.running;
  ring = h.ring;
  size = omega (arith, h.size);
  fits = omega (arith, h.fits);
  front = omega (arith, step, slot-below pool.queue_capacity pool.queue_front 1 h.front, h.front);
  rear = behind;
  entries = entry;
}
  where
    step :
        (pool.queue_front + 1) % pool.queue_capacity ≡ slot pool.queue_capacity pool.queue_front 1
    step = mod-suc pool.queue_capacity pool.queue_front h.front

    behind :
        pool.queue_rear
        ≡ slot pool.queue_capacity
            ((pool.queue_front + 1) % pool.queue_capacity)
            (pool.queue_size - 1)
    behind =
        h.rear
        ∙ ap (slot pool.queue_capacity pool.queue_front) (omega (arith, h.size))
        ∙ sym (
            slot-front pool.queue_capacity pool.queue_front (pool.queue_size - 1) h.front
              (omega (arith, h.fits, h.size)))
        ∙ ap (λ (r : ℕ). slot pool.queue_capacity r (pool.queue_size - 1)) (sym step)

    entry :
        (j : ℕ)
        → j < length tasks
        → get_elem? pool.task_q
            (slot pool.queue_capacity ((pool.queue_front + 1) % pool.queue_capacity) j)
          ≡ get_elem? tasks j
    entry j lt =
        ap (λ (r : ℕ). get_elem? pool.task_q (slot pool.queue_capacity r j)) step
        ∙ ap (λ (k : ℕ). get_elem? pool.task_q k)
            (slot-front pool.queue_capacity pool.queue_front j h.front
              (omega (arith, h.fits, h.size)))
        ∙ h.entries (suc j) (omega arith)

-- A task that finds room is added behind the others.
pub thread_pool_add_room :
    (pool : ThreadPool) (tasks : List Task) (task : Task)
    → Holds pool tasks
    → pool.queue_size < pool.queue_capacity
    → thread_pool_add pool task ≡ ok (added (with_task pool task))
unfolding thread_pool_add
thread_pool_add_room pool tasks task h room = rw (h.running, roomy, rear_in) refl
  where
    roomy : (pool.queue_size == pool.queue_capacity) ≡ false
    roomy = ground arith

    rear_in : ltb pool.queue_rear (length pool.task_q) ≡ true
    rear_in = lt→ltb pool.queue_rear (length pool.task_q) (
        omega (
          arith,
          h.ring,
          h.rear,
          slot-below pool.queue_capacity pool.queue_front pool.queue_size h.front room,
        ))

pub thread_pool_add-Holds :
    (pool : ThreadPool) (tasks : List Task) (task : Task)
    → Holds pool tasks
    → pool.queue_size < pool.queue_capacity
    → (pool' : ThreadPool) × (thread_pool_add pool task ≡ ok (added pool'))
      × Holds pool' (tasks ++ (task ∷ []))
thread_pool_add-Holds pool tasks task h room = (
  with_task pool task,
  thread_pool_add_room pool tasks task h room,
  with_task-Holds pool tasks task h room,
)

-- On a full ring the caller waits.
pub thread_pool_add_full :
    (pool : ThreadPool) (tasks : List Task) (task : Task)
    → Holds pool tasks
    → pool.queue_size ≡ pool.queue_capacity
    → thread_pool_add pool task ≡ ok must_wait
unfolding thread_pool_add
thread_pool_add_full pool tasks task h full = rw (h.running, equal) refl
  where
    equal : (pool.queue_size == pool.queue_capacity) ≡ true
    equal = ground arith

-- A worker takes the oldest task.
pub worker_take_filled :
    (pool : ThreadPool) (task : Task) (tasks : List Task)
    → Holds pool (task ∷ tasks)
    → worker_take pool ≡ ok (took task (less_task pool))
unfolding worker_take
worker_take_filled pool task tasks h = rw (h.running, busy h.size, first) refl
  where
    busy : pool.queue_size ≡ suc (length tasks) → (pool.queue_size == 0) ≡ false
    busy e = ground arith

    first : get_elem? pool.task_q pool.queue_front ≡ some task
    first =
        ap (λ (k : ℕ). get_elem? pool.task_q k)
          (sym (slot-zero pool.queue_capacity pool.queue_front h.front))
        ∙ h.entries 0 (omega arith)

pub worker_take-Holds :
    (pool : ThreadPool) (task : Task) (tasks : List Task)
    → Holds pool (task ∷ tasks)
    → (pool' : ThreadPool) × (worker_take pool ≡ ok (took task pool')) × Holds pool' tasks
worker_take-Holds pool task tasks h =
    (less_task pool, worker_take_filled pool task tasks h, less_task-Holds pool task tasks h)

-- On an empty ring it sleeps.
pub worker_take_empty : (pool : ThreadPool) → Holds pool [] → worker_take pool ≡ ok sleeps
unfolding worker_take
worker_take_empty pool h = rw (h.running, idle h.size) refl
  where
    idle : pool.queue_size ≡ 0 → (pool.queue_size == 0) ≡ true
    idle e = ground arith
