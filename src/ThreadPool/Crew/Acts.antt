-- ===== src/ThreadPool/Crew/Acts.antt =====
-- What each action of a thread, a client and the manager keeps.
use my_ceph.Common.{
  ◌⊎◌, ℕ, ◌*◌, ◌≤◌, ◌<◌, ◌≡◌, ◌≢◌, ltb, leb, ◌&&◌, refl, ◌∙◌, arith, Bool-cases, ℕ_discrete, inl,
  inr, List, [], ◌∷◌, ◌++◌, get_elem?, Option, none, some, Outcome, ok,
}
use my_ceph.ThreadPool.{Task, ThreadPool, number, manager_grow, manager_shrink}
use my_ceph.ThreadPool.Fifo.{
  Holds, with_task, with_task-Holds, thread_pool_add_room, thread_pool_add_full,
}
use my_ceph.ThreadPool.Threads.{manager_grow-Grown}
use my_ceph.ThreadPool.Crew.{
  Thread, Crew, adds, grows, shrinks, new_threads, rouse, move_thread, after_client, crew_step,
}
use my_ceph.ThreadPool.Crew.Sums.{sum_of, sum_of-append, sum_of-member}
use my_ceph.ThreadPool.Crew.Count.{
  alive_at, alive, leaving, running, held, alive_as, is_id, IsCrewed, IsMove-IsCrewed,
}
use my_ceph.ThreadPool.Crew.Signal.{IsBlind, rouse_at-IsRoused}
use my_ceph.ThreadPool.Crew.Step.{HasPlace, thread_step-Moved}
use my_ceph.ThreadPool.Crew.Start.{new_threads-IsStarted}

-- An action that came to its end.
pub record Kept (min : ℕ) (r : Outcome Crew) : Type 0 where
  pub crew : Crew
  pub queue : List Task
  pub ended : r ≡ ok crew
  pub crewed : IsCrewed min queue crew

-- A thread of the crew has its place.
pub HasPlace-member :
    {min : ℕ} (queue : List Task) (crew : Crew) (i : ℕ) (t : Thread)
    → IsCrewed min queue crew
    → get_elem? crew.threads i ≡ some t
    → HasPlace t crew.pool
HasPlace-member queue crew i t c at = record {
  counted = omega (arith, c.busy, sum_of-member running crew.threads i t at);
  numbered = λ here. (numbered here, in_slots here);
}
  where
    numbered : alive_at t.stage ≡ 1 → t.id ≢ 0
    numbered here = λ z.
        absurd (ground (arith, z, here, c.nonzero, sum_of-member (alive_as 0) crew.threads i t at))

    in_slots : alive_at t.stage ≡ 1 → 1 ≤ sum_of (is_id t.id) crew.pool.thread_ids
    in_slots here = ground (
      arith,
      here,
      c.owned t.id (numbered here),
      sum_of-member (alive_as t.id) crew.threads i t at,
    )

pub move_thread-Kept :
    {min : ℕ} (queue : List Task) (crew : Crew) (i : ℕ) (o : Option Thread)
    → IsCrewed min queue crew
    → get_elem? crew.threads i ≡ o
    → Kept min (move_thread i o crew)
unfolding move_thread
move_thread-Kept queue crew i none c at = record {
  crew = crew;
  queue = queue;
  ended = refl;
  crewed = c;
}
move_thread-Kept queue crew i (some t) c at =
    let m =
      thread_step-Moved queue t crew.pool c.ring c.staff (HasPlace-member queue crew i t c at) in
    record {
      crew = _;
      queue = m.queue';
      ended = rw m.returned refl;
      crewed = IsMove-IsCrewed queue m.queue' crew i t m.stage m.pool' c at m.move;
    }

-- A task is added to a ring with room.
pub with_task-IsCrewed :
    {min : ℕ} (queue : List Task) (crew : Crew) (task : Task)
    → IsCrewed min queue crew
    → crew.pool.queue_size < crew.pool.queue_capacity
    → IsCrewed min
        (queue ++ (task ∷ []))
        (record crew { pool = with_task crew.pool task; added_tasks = task ∷ crew.added_tasks })
unfolding sum_of
with_task-IsCrewed queue crew task c room = record {
  ring = with_task-Holds crew.pool queue task c.ring room;
  staff = record { least = c.staff.least; staffed = c.staff.staffed; asked = c.staff.asked };
  busy = c.busy;
  live = c.live;
  slots = c.slots;
  owned = c.owned;
  nonzero = c.nonzero;
  conserved = λ p. omega (arith, c.conserved p, sum_of-append p queue (task ∷ []));
}

-- A thread is woken.
pub rouse-IsCrewed :
    {min : ℕ} (queue : List Task) (crew : Crew) (k : ℕ)
    → IsCrewed min queue crew
    → IsCrewed min queue (record crew { threads = rouse k crew.threads })
unfolding IsBlind
rouse-IsCrewed queue crew k c =
    let r = rouse_at-IsRoused k (get_elem? crew.threads k) crew.threads refl in
    record {
      ring = c.ring;
      staff = c.staff;
      busy = omega (arith, c.busy, r.same running (λ id. refl));
      live = omega (arith, c.live, r.same leaving (λ id. refl), r.same alive (λ id. refl));
      slots = omega (arith, c.slots, r.same alive (λ id. refl));
      owned = λ x nz. omega (arith, c.owned x nz, r.same (alive_as x) (λ id. refl));
      nonzero = omega (arith, c.nonzero, r.same (alive_as 0) (λ id. refl));
      conserved = λ p. omega (arith, c.conserved p, r.same (held p) (λ id. refl));
    }

-- A crew whose ring has taken a task, and of whose threads one has been woken.
abbrev pub with_added : Task → ℕ → Crew → Crew
with_added task k crew = record crew {
  pool = with_task crew.pool task;
  threads = rouse k crew.threads;
  added_tasks = task ∷ crew.added_tasks;
}

-- What adding a task comes to.
pub add_cases :
    {min : ℕ} (queue : List Task) (crew : Crew) (task : Task) (k : ℕ)
    → IsCrewed min queue crew
    → (crew_step (adds task k) crew ≡ ok crew)
      ⊎ (crew_step (adds task k) crew ≡ ok (with_added task k crew))
        × IsCrewed min (queue ++ (task ∷ [])) (with_added task k crew)
unfolding crew_step after_client
add_cases queue crew task k c = elim (ℕ_discrete crew.pool.queue_size crew.pool.queue_capacity) [
  | yes full ↦ inl (rw (thread_pool_add_full crew.pool queue task c.ring full) refl)
  | no ne ↦
      let room : crew.pool.queue_size < crew.pool.queue_capacity = omega (arith, c.ring.fits, ne) in
      inr (
        rw (thread_pool_add_room crew.pool queue task c.ring room) refl,
        rouse-IsCrewed (queue ++ (task ∷ []))
            (record crew { pool = with_task crew.pool task; added_tasks = task ∷ crew.added_tasks })
            k (with_task-IsCrewed queue crew task c room),
      )
]

pub add-Kept :
    {min : ℕ} (queue : List Task) (crew : Crew) (task : Task) (k : ℕ)
    → IsCrewed min queue crew
    → Kept min (crew_step (adds task k) crew)
add-Kept queue crew task k c = elim (add_cases queue crew task k c) [
  | inl e ↦ record { crew = crew; queue = queue; ended = e; crewed = c }
  | inr (e, c') ↦ record {
    crew = with_added task k crew;
    queue = queue ++ (task ∷ []);
    ended = e;
    crewed = c';
  }
]

-- A pool whose threads have changed.
record IsSameRing (pool pool' : ThreadPool) : Type 0 where
  ring : (queue : List Task) → Holds pool queue → Holds pool' queue
  least : pool'.min_num ≡ pool.min_num
  busy : pool'.busy_num ≡ pool.busy_num
  asked : pool'.exit_num ≤ number

-- The manager may grow any pool, or ask any threads to leave.
manager_grow-IsSameRing :
    (tid : ℕ → ℕ) (queue_size live_num : ℕ) (pool : ThreadPool)
    → pool.exit_num ≤ number
    → IsSameRing pool (manager_grow tid queue_size live_num pool)
unfolding manager_grow
manager_grow-IsSameRing tid queue_size live_num pool few =
    elim (Bool-cases (leb 1 queue_size && ltb live_num pool.max_num)) [
      | inl b ↦ rw b (record {
        ring = λ queue h. record {
          running = h.running;
          ring = h.ring;
          size = h.size;
          fits = h.fits;
          front = h.front;
          rear = h.rear;
          entries = h.entries;
        };
        least = refl;
        busy = refl;
        asked = few;
      })
      | inr b ↦ rw b (record { ring = λ queue h. h; least = refl; busy = refl; asked = few })
    ]

pub grow-Kept :
    {min : ℕ} (queue : List Task) (crew : Crew) (tid : ℕ → ℕ) (queue_size live_num : ℕ)
    → ((i : ℕ) → tid i ≢ 0)
    → IsCrewed min queue crew
    → Kept min (crew_step (grows tid queue_size live_num) crew)
unfolding crew_step
grow-Kept queue crew tid queue_size live_num nz c =
    let pool' = manager_grow tid queue_size live_num crew.pool in
    let (g, _) =
      manager_grow-Grown tid queue_size live_num crew.pool nz (omega (arith, c.live, c.slots)) in
    let ids = crew.pool.thread_ids in
    let ids' = pool'.thread_ids in
    let s = new_threads-IsStarted ids ids' g.same_slots g.kept in
    let same = manager_grow-IsSameRing tid queue_size live_num crew.pool c.staff.asked in
    let ts = new_threads ids ids' in
    record {
      crew = record crew { pool = pool'; threads = crew.threads ++ ts };
      queue = queue;
      ended = refl;
      crewed = record {
        ring = same.ring queue c.ring;
        staff = record {
          least = same.least ∙ c.staff.least;
          staffed = omega (arith, c.staff.staffed, g.counted, s.slots);
          asked = same.asked;
        };
        busy = omega (arith, c.busy, same.busy, s.idle, sum_of-append running crew.threads ts);
        live = omega (
          arith,
          c.live,
          g.counted,
          s.slots,
          s.staying,
          sum_of-append leaving crew.threads ts,
          sum_of-append alive crew.threads ts,
        );
        slots = omega (arith, c.slots, s.slots, sum_of-append alive crew.threads ts);
        owned = λ x xnz.
            omega (arith, c.owned x xnz, s.owned x xnz, sum_of-append (alive_as x) crew.threads ts);
        nonzero = omega (arith, c.nonzero, s.nonzero, sum_of-append (alive_as 0) crew.threads ts);
        conserved =
            λ p. omega (arith, c.conserved p, s.empty p, sum_of-append (held p) crew.threads ts);
      };
    }

-- The manager asks threads to leave.
pub exit_num-IsCrewed :
    {min : ℕ} (queue : List Task) (crew : Crew)
    → IsCrewed min queue crew
    → IsCrewed min queue (record crew { pool = record (crew.pool) { exit_num = number } })
exit_num-IsCrewed queue crew c = record {
  ring = record {
    running = c.ring.running;
    ring = c.ring.ring;
    size = c.ring.size;
    fits = c.ring.fits;
    front = c.ring.front;
    rear = c.ring.rear;
    entries = c.ring.entries;
  };
  staff = record { least = c.staff.least; staffed = c.staff.staffed; asked = omega arith };
  busy = c.busy;
  live = c.live;
  slots = c.slots;
  owned = c.owned;
  nonzero = c.nonzero;
  conserved = c.conserved;
}

-- What the manager does when it may ask threads to leave.
pub shrink_cases :
    (crew : Crew) (busy_num live_num : ℕ)
    → (crew_step (shrinks busy_num live_num) crew
        ≡ ok (record crew { pool = record (crew.pool) { exit_num = number } }))
      ⊎ (crew_step (shrinks busy_num live_num) crew ≡ ok crew)
unfolding crew_step manager_shrink
shrink_cases crew busy_num live_num =
    elim (Bool-cases (ltb (busy_num * 2) live_num && ltb crew.pool.min_num live_num)) [
      | inl b ↦ inl (rw b refl)
      | inr b ↦ inr (rw b refl)
    ]

pub shrink-Kept :
    {min : ℕ} (queue : List Task) (crew : Crew) (busy_num live_num : ℕ)
    → IsCrewed min queue crew
    → Kept min (crew_step (shrinks busy_num live_num) crew)
shrink-Kept queue crew busy_num live_num c = elim (shrink_cases crew busy_num live_num) [
  | inl e ↦ record { crew = _; queue = queue; ended = e; crewed = exit_num-IsCrewed queue crew c }
  | inr e ↦ record { crew = crew; queue = queue; ended = e; crewed = c }
]
