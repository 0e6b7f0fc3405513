-- ===== src/ThreadPool/Crew/Alert.antt =====
-- While no thread is asked to leave, one stays awake as long as there is a task in the ring.
use my_ceph.Common.{
  ℕ, zero, suc, ◌+◌, ◌*◌, ◌≤◌, ◌<◌, ◌≡◌, ◌⊎◌, refl, sym, ap, ◌∙◌, subst, arith, Bool, Bool-cases,
  true, false, ltb, leb, ◌&&◌, inl, inr, List, [], ◌∷◌, ◌++◌, length, length-set, get_elem?, set,
  Option, none, some, some-inj, Outcome, ok, ok-inj, ◌>>=◌,
}
use my_ceph.ThreadPool.{Task, ThreadPool, manager_grow}
use my_ceph.ThreadPool.Crew.{
  Stage, at_head, waits, woken, has_task, runs, exiting, gone, Thread, Crew, Action, moves, adds,
  signals, grows, shrinks, rouse, new_threads, ended_by, move_thread, crew_step, crew_run,
}
use my_ceph.ThreadPool.Crew.Sums.{sum_of, sum_of-append, sum_of-set}
use my_ceph.ThreadPool.Crew.Count.{
  alive_at, exiting_at, awake_at, waiting_at, weight_at, alive, leaving, awake, waiting, weight,
  IsCrewed, IsMove-IsCrewed,
}
use my_ceph.ThreadPool.Crew.Signal.{rouse_at-IsRoused}
use my_ceph.ThreadPool.Crew.Step.{thread_step-Moved}
use my_ceph.ThreadPool.Crew.Acts.{HasPlace-member, rouse-IsCrewed, with_added, add_cases, grow-Kept}
use my_ceph.ThreadPool.Crew.Invariant.{IsNumberedOne, IsNumbered}

-- A pool that agrees with its threads, none of which is asked to leave, and of which one is awake if the
-- ring holds a task.
pub record IsAlert (min : ℕ) (queue : List Task) (crew : Crew) : Type 0 where
  pub crewed : IsCrewed min queue crew
  pub no_exit : crew.pool.exit_num ≡ 0
  pub up : 1 ≤ length queue → 1 ≤ sum_of awake crew.threads

-- What is left to do.
unfoldable pub work_left : Crew → ℕ
work_left crew = sum_of weight crew.threads + 4 * crew.pool.queue_size

pub set-same {ℓ} :
    {A : Type ℓ} (xs : List A) (i : ℕ) (x : A) → get_elem? xs i ≡ some x → set xs i x ≡ xs
set-same [] i x h = absurd (cc)
set-same (y ∷ xs) zero x h = ap (λ z. z ∷ xs) (sym (some-inj h))
set-same (y ∷ xs) (suc i) x h = ap (λ zs. y ∷ zs) (set-same xs i x h)

-- A move of a thread that leaves a pool alert: it has done some work, or the thread waits or is gone.
pub record Nearer (min : ℕ) (crew : Crew) (i : ℕ) (r : Outcome Crew) : Type 0 where
  pub crew' : Crew
  pub queue' : List Task
  pub ended : r ≡ ok crew'
  pub alert : IsAlert min queue' crew'
  pub same_added : crew'.added_tasks ≡ crew.added_tasks
  pub same_size : length crew'.threads ≡ length crew.threads
  pub more_ended : (p : Task → ℕ) → sum_of p crew.ended_tasks ≤ sum_of p crew'.ended_tasks
  pub pays :
      (work_left crew' < work_left crew)
      ⊎ (crew'.threads ≡ crew.threads)
        × (work_left crew' ≡ work_left crew)
        × ((t : Thread) → get_elem? crew.threads i ≡ some t → weight t ≡ 0)

move_thread-Nearer :
    {min : ℕ} (queue : List Task) (crew : Crew) (i : ℕ) (o : Option Thread)
    → IsAlert min queue crew
    → get_elem? crew.threads i ≡ o
    → Nearer min crew i (move_thread i o crew)
unfolding move_thread work_left
move_thread-Nearer queue crew i none a at = record {
  crew' = crew;
  queue' = queue;
  ended = refl;
  alert = a;
  same_added = refl;
  same_size = refl;
  more_ended = λ p. omega arith;
  pays = inr (refl, refl, λ t e. absurd (cc (at, e)));
}
move_thread-Nearer {min} queue crew i (some t) a at =
    let c = a.crewed in
    let m =
      thread_step-Moved queue t crew.pool c.ring c.staff (HasPlace-member queue crew i t c at) in
    let t' : Thread = record t { stage = m.stage } in
    let on = m.onward a.no_exit in
    let crewed' = IsMove-IsCrewed queue m.queue' crew i t m.stage m.pool' c at m.move in
    let weights = sum_of-set weight crew.threads i t t' at in
    record {
      crew' = record crew {
        pool = m.pool';
        threads = set crew.threads i t';
        ended_tasks = ended_by t.stage ++ crew.ended_tasks;
      };
      queue' = m.queue';
      ended = rw m.returned refl;
      alert = record {
        crewed = crewed';
        no_exit = on.no_exit;
        up = λ some_task. omega (
          arith,
          a.up (omega (arith, some_task, on.shorter)),
          on.stays_up some_task,
          sum_of-set awake crew.threads i t t' at,
        );
      };
      same_added = refl;
      same_size = length-set crew.threads i t';
      more_ended = λ p. omega (arith, sum_of-append p (ended_by t.stage) crew.ended_tasks);
      pays = elim m.pays [
        | inl less ↦ inl (omega (arith, less, weights, c.ring.size, crewed'.ring.size))
        | inr idle ↦ inr (
          ap (λ (s : Stage). set crew.threads i (record t { stage = s })) idle.same_stage
              ∙ set-same crew.threads i t at,
          omega (
            arith,
            weights,
            ap weight_at idle.same_stage,
            ap (length {A = Task}) idle.same_queue,
            c.ring.size,
            crewed'.ring.size,
          ),
          λ u e. subst (λ (v : Thread). weight v ≡ 0) (some-inj (sym at ∙ e)) idle.no_weight,
        )
      ];
    }

pub move-Nearer :
    {min : ℕ} (queue : List Task) (crew : Crew) (i : ℕ)
    → IsAlert min queue crew
    → Nearer min crew i (crew_step (moves i) crew)
unfolding crew_step
move-Nearer queue crew i a = move_thread-Nearer queue crew i (get_elem? crew.threads i) a refl

-- A run that leaves a pool alert.
pub record Alerted (min : ℕ) (r : Outcome Crew) : Type 0 where
  pub crew : Crew
  pub queue : List Task
  pub ended : r ≡ ok crew
  pub alert : IsAlert min queue crew

-- A thread that has not left waits or is awake.
split_alive :
    (stage : Stage) → alive_at stage ≡ awake_at stage + waiting_at stage + exiting_at stage
split_alive at_head = refl
split_alive waits = refl
split_alive woken = refl
split_alive (has_task task) = refl
split_alive (runs task) = refl
split_alive exiting = refl
split_alive gone = refl

alive_sums :
    (ts : List Thread) → sum_of alive ts ≡ sum_of awake ts + sum_of waiting ts + sum_of leaving ts
unfolding sum_of
alive_sums [] = refl
alive_sums (t ∷ ts) = omega (arith, alive_sums ts, split_alive t.stage)

-- A signal wakes a thread, or none waits.
rouse_up :
    {min : ℕ} (queue : List Task) (crew : Crew) (k : ℕ)
    → 1 ≤ min
    → IsCrewed min queue crew
    → 1 ≤ sum_of awake (rouse k crew.threads)
rouse_up queue crew k least c =
    let r = rouse_at-IsRoused k (get_elem? crew.threads k) crew.threads refl in
    elim r.one_up [
      | inl up ↦ up
      | inr none_waits ↦
          omega (arith, none_waits, r.more, alive_sums crew.threads, c.live, c.staff.staffed)
    ]

add-Alerted :
    {min : ℕ} (queue : List Task) (crew : Crew) (task : Task) (k : ℕ)
    → 1 ≤ min
    → IsAlert min queue crew
    → Alerted min (crew_step (adds task k) crew)
add-Alerted queue crew task k least a = elim (add_cases queue crew task k a.crewed) [
  | inl e ↦ record { crew = crew; queue = queue; ended = e; alert = a }
  | inr (e, c') ↦ record {
    crew = with_added task k crew;
    queue = queue ++ (task ∷ []);
    ended = e;
    alert = record {
      crewed = c';
      no_exit = a.no_exit;
      up = λ some_task. rouse_up queue crew k least a.crewed;
    };
  }
]

manager_grow_same :
    (tid : ℕ → ℕ) (queue_size live_num : ℕ) (pool : ThreadPool)
    → ((manager_grow tid queue_size live_num pool).exit_num ≡ pool.exit_num)
      × ((manager_grow tid queue_size live_num pool).queue_size ≡ pool.queue_size)
unfolding manager_grow
manager_grow_same tid queue_size live_num pool =
    elim (Bool-cases (leb 1 queue_size && ltb live_num pool.max_num)) [
      | inl b ↦ rw b (refl, refl)
      | inr b ↦ rw b (refl, refl)
    ]

grow-Alerted :
    {min : ℕ} (queue : List Task) (crew : Crew) (tid : ℕ → ℕ) (queue_size live_num : ℕ)
    → IsNumberedOne (grows tid queue_size live_num)
    → IsAlert min queue crew
    → Alerted min (crew_step (grows tid queue_size live_num) crew)
unfolding crew_step IsNumberedOne
grow-Alerted {min} queue crew tid queue_size live_num nz a =
    let kept = grow-Kept queue crew tid queue_size live_num nz a.crewed in
    let pool' = manager_grow tid queue_size live_num crew.pool in
    let ts = new_threads crew.pool.thread_ids pool'.thread_ids in
    let same : kept.crew ≡ record crew { pool = pool'; threads = crew.threads ++ ts } =
      sym (ok-inj (unfold crew_step in kept.ended)) in
    let crewed' = subst (IsCrewed min kept.queue) same kept.crewed in
    let (exits, tasks) = manager_grow_same tid queue_size live_num crew.pool in
    record {
      crew = record crew { pool = pool'; threads = crew.threads ++ ts };
      queue = kept.queue;
      ended = refl;
      alert = record {
        crewed = crewed';
        no_exit = exits ∙ a.no_exit;
        up = λ some_task. omega (
          arith,
          a.up (omega (arith, some_task, crewed'.ring.size, tasks, a.crewed.ring.size)),
          sum_of-append awake crew.threads ts,
        );
      };
    }

-- The manager asks no thread to leave.
unfoldable pub keeps_threads : List Action → Bool
keeps_threads [] = true
keeps_threads (shrinks busy_num live_num ∷ acts) = false
keeps_threads (moves i ∷ acts) = keeps_threads acts
keeps_threads (adds task k ∷ acts) = keeps_threads acts
keeps_threads (signals k ∷ acts) = keeps_threads acts
keeps_threads (grows tid queue_size live_num ∷ acts) = keeps_threads acts

run_on :
    {min : ℕ} (a : Action) (acts : List Action) (crew crew' : Crew)
    → crew_step a crew ≡ ok crew'
    → Alerted min (crew_run acts crew')
    → Alerted min (crew_run (a ∷ acts) crew)
unfolding crew_run
run_on {min} a acts crew crew' e r =
    subst (λ (o : Outcome Crew). Alerted min (o >>= crew_run acts)) (sym e) r

pub crew_run-Alerted :
    {min : ℕ} (queue : List Task) (crew : Crew) (acts : List Action)
    → 1 ≤ min
    → IsNumbered acts
    → keeps_threads acts ≡ true
    → IsAlert min queue crew
    → Alerted min (crew_run acts crew)
unfolding crew_run IsNumbered keeps_threads
crew_run-Alerted queue crew [] least n k a = record {
  crew = crew;
  queue = queue;
  ended = refl;
  alert = a;
}
crew_run-Alerted queue crew (moves i ∷ acts) least (n, ns) k a =
    let first = move-Nearer queue crew i a in
    run_on (moves i) acts crew first.crew' first.ended
      (crew_run-Alerted first.queue' first.crew' acts least ns k first.alert)
crew_run-Alerted queue crew (adds task j ∷ acts) least (n, ns) k a =
    let first = add-Alerted queue crew task j least a in
    run_on (adds task j) acts crew first.crew first.ended
      (crew_run-Alerted first.queue first.crew acts least ns k first.alert)
crew_run-Alerted {min} queue crew (signals j ∷ acts) least (n, ns) k a =
    unfold crew_step in
    crew_run-Alerted queue (record crew { threads = rouse j crew.threads }) acts least ns k
      (record {
        crewed = rouse-IsCrewed queue crew j a.crewed;
        no_exit = a.no_exit;
        up = λ some_task. rouse_up queue crew j least a.crewed;
      })
crew_run-Alerted queue crew (grows tid queue_size live_num ∷ acts) least (n, ns) k a =
    let first = grow-Alerted queue crew tid queue_size live_num n a in
    run_on (grows tid queue_size live_num) acts crew first.crew first.ended
      (crew_run-Alerted first.queue first.crew acts least ns k first.alert)
crew_run-Alerted queue crew (shrinks busy_num live_num ∷ acts) least (n, ns) k a = absurd (cc)
