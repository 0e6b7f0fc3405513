-- ===== src/ThreadPool/Crew/Finish.antt =====
-- Every task that was added ends, if the threads move often enough and none is asked to leave.
use mathlib.Core.List.{map-append}
use my_ceph.Common.{
  ℕ, zero, suc, ◌≤◌, ◌<◌, ◌≡◌, ◌≢◌, ◌⊎◌, inl, inr, refl, sym, ap, ◌∙◌, subst, arith, true, List, [],
  ◌∷◌, ◌++◌, length, map, get_elem?, some, some-inj, Outcome, ok, ok-inj, >>=-eq-ok, ◌>>=◌,
}
use my_ceph.ThreadPool.{Task}
use my_ceph.ThreadPool.Crew.{
  Stage, at_head, waits, woken, has_task, runs, exiting, gone, Thread, Crew, Action, moves,
  create_crew, crew_step, crew_run,
}
use my_ceph.ThreadPool.Crew.Sums.{sum_of, sum_of-eq, sum_of-zero, get_elem?-some-lt}
use my_ceph.ThreadPool.Crew.Count.{awake_at, weight_at, held_at, awake, weight, held, IsCrewed}
use my_ceph.ThreadPool.Crew.Invariant.{IsNumbered}
use my_ceph.ThreadPool.Crew.Create.{fresh_crew, create_crew-IsCreated}
use my_ceph.ThreadPool.Crew.Alert.{IsAlert, work_left, move-Nearer, keeps_threads, crew_run-Alerted}

-- Each of `k` threads moves.
unfoldable pub IsRound : ℕ → List ℕ → Type 0
IsRound k is = (i : ℕ) → i < k → (j : ℕ) × (get_elem? is j ≡ some i)

-- Moves in which, `n` times over, each of `k` threads moves, in any order and as often as it may be.
unfoldable pub IsFair : ℕ → ℕ → List ℕ → Type 0
unfolding IsRound
IsFair k zero is = is ≡ is
IsFair k (suc n) is =
    (r : List ℕ) × (rest : List ℕ) × (is ≡ r ++ rest) × IsRound k r × IsFair k n rest

-- Moves that have done some work, or were all of threads that wait or are gone.
record NearerAll (min : ℕ) (crew : Crew) (is : List ℕ) (r : Outcome Crew) : Type 0 where
  crew' : Crew
  queue' : List Task
  ended : r ≡ ok crew'
  alert : IsAlert min queue' crew'
  same_added : crew'.added_tasks ≡ crew.added_tasks
  same_size : length crew'.threads ≡ length crew.threads
  less_work : work_left crew' ≤ work_left crew
  more_ended : (p : Task → ℕ) → sum_of p crew.ended_tasks ≤ sum_of p crew'.ended_tasks
  pays :
      (work_left crew' < work_left crew)
      ⊎ ((j i : ℕ)
          → get_elem? is j ≡ some i
          → (t : Thread) → get_elem? crew.threads i ≡ some t
          → weight t ≡ 0)

moves-NearerAll :
    {min : ℕ} (queue : List Task) (crew : Crew) (is : List ℕ)
    → IsAlert min queue crew
    → NearerAll min crew is (crew_run (map moves is) crew)
unfolding crew_run
moves-NearerAll queue crew [] a = record {
  crew' = crew;
  queue' = queue;
  ended = refl;
  alert = a;
  same_added = refl;
  same_size = refl;
  less_work = omega arith;
  more_ended = λ p. omega arith;
  pays = inr (λ j i e. absurd (cc));
}
moves-NearerAll queue crew (i ∷ is) a =
    let one = move-Nearer queue crew i a in
    let all = moves-NearerAll one.queue' one.crew' is one.alert in
    record {
      crew' = all.crew';
      queue' = all.queue';
      ended = rw (one.ended, all.ended) refl;
      alert = all.alert;
      same_added = all.same_added ∙ one.same_added;
      same_size = all.same_size ∙ one.same_size;
      more_ended = λ p. omega (arith, one.more_ended p, all.more_ended p);
      less_work = elim one.pays [
        | inl less ↦ omega (arith, less, all.less_work)
        | inr (ts, same, idle) ↦ omega (arith, same, all.less_work)
      ];
      pays = elim one.pays [
        | inl less ↦ inl (omega (arith, less, all.less_work))
        | inr (ts, same, idle) ↦ elim all.pays [
          | inl less ↦ inl (omega (arith, less, same))
          | inr rest ↦ inr (λ j k e t at. by_place ts idle rest j k e t at)
        ]
      ];
    }
  where
    by_place :
        {ts' : List Thread}
        → ts' ≡ crew.threads
        → ((t : Thread) → get_elem? crew.threads i ≡ some t → weight t ≡ 0)
        → ((j k : ℕ)
            → get_elem? is j ≡ some k
            → (t : Thread) → get_elem? ts' k ≡ some t
            → weight t ≡ 0)
        → (j k : ℕ) → get_elem? (i ∷ is) j ≡ some k
        → (t : Thread) → get_elem? crew.threads k ≡ some t
        → weight t ≡ 0
    by_place ts idle rest zero k e t at = idle t (ap (get_elem? crew.threads) (some-inj e) ∙ at)
    by_place ts idle rest (suc j) k e t at = rest j k e t (ap (λ us. get_elem? us k) ts ∙ at)

asleep : (stage : Stage) → weight_at stage ≡ 0 → awake_at stage ≡ 0
asleep at_head z = absurd (omega (arith, z))
asleep waits z = refl
asleep woken z = absurd (omega (arith, z))
asleep (has_task task) z = absurd (omega (arith, z))
asleep (runs task) z = absurd (omega (arith, z))
asleep exiting z = refl
asleep gone z = refl

empty_hands : (p : Task → ℕ) (stage : Stage) → weight_at stage ≡ 0 → held_at p stage ≡ 0
empty_hands p at_head z = refl
empty_hands p waits z = refl
empty_hands p woken z = refl
empty_hands p (has_task task) z = absurd (omega (arith, z))
empty_hands p (runs task) z = absurd (omega (arith, z))
empty_hands p exiting z = refl
empty_hands p gone z = refl

-- Where all threads wait or are gone, all tasks have ended.
all_over :
    {min : ℕ} (queue : List Task) (crew : Crew)
    → IsAlert min queue crew
    → ((i : ℕ) (t : Thread) → get_elem? crew.threads i ≡ some t → weight t ≡ 0)
    → (p : Task → ℕ) → sum_of p crew.added_tasks ≡ sum_of p crew.ended_tasks
unfolding sum_of
all_over [] crew a idle p = omega (
  arith,
  a.crewed.conserved p,
  sum_of-eq (held p) (λ _. 0) crew.threads (λ i t e. empty_hands p t.stage (idle i t e)),
  sum_of-zero crew.threads,
)
all_over (task ∷ queue) crew a idle p = absurd (
    omega (
      arith,
      a.up (omega arith),
      sum_of-eq awake (λ _. 0) crew.threads (λ i t e. asleep t.stage (idle i t e)),
      sum_of-zero crew.threads,
    ))

-- A run, and the run behind it.
crew_run-append :
    (acts acts' : List Action) (crew crew' : Crew)
    → crew_run acts crew ≡ ok crew'
    → crew_run (acts ++ acts') crew ≡ crew_run acts' crew'
unfolding crew_run
crew_run-append [] acts' crew crew' e = ap (crew_run acts') (ok-inj e)
crew_run-append (a ∷ acts) acts' crew crew' e =
    let (crew1, e1, k) = >>=-eq-ok (crew_step a crew) _ e in
    rw e1 (crew_run-append acts acts' crew1 crew' k)

-- A run in which every task that was added has ended, as often as it was added, by any weight.
pub record Finished (min : ℕ) (crew : Crew) (r : Outcome Crew) : Type 0 where
  pub crew' : Crew
  pub queue' : List Task
  pub ended : r ≡ ok crew'
  pub crewed : IsCrewed min queue' crew'
  pub same_added : crew'.added_tasks ≡ crew.added_tasks
  pub all_ended : (p : Task → ℕ) → sum_of p crew'.ended_tasks ≡ sum_of p crew.added_tasks

still_ended :
    {min : ℕ} (queue : List Task) (crew : Crew) (is : List ℕ)
    → IsAlert min queue crew
    → ((p : Task → ℕ) → sum_of p crew.added_tasks ≡ sum_of p crew.ended_tasks)
    → NearerAll min crew is (crew_run (map moves is) crew)
    → Finished min crew (crew_run (map moves is) crew)
still_ended queue crew is a all m = record {
  crew' = m.crew';
  queue' = m.queue';
  ended = m.ended;
  crewed = m.alert.crewed;
  same_added = m.same_added;
  all_ended = λ p.
      omega (arith, all p, m.more_ended p, m.alert.crewed.conserved p, ap (sum_of p) m.same_added);
}

-- A run of moves in which each thread moves more often than there is work left.
alert-Finished :
    {min : ℕ} (n : ℕ) (queue : List Task) (crew : Crew) (is : List ℕ)
    → IsAlert min queue crew
    → IsFair (length crew.threads) n is
    → work_left crew < n
    → Finished min crew (crew_run (map moves is) crew)
unfolding IsFair IsRound
alert-Finished zero queue crew is a fair lt = absurd (omega arith)
alert-Finished {min} (suc n) queue crew is a (r, rest, split, whole, fair) lt =
    let m = moves-NearerAll queue crew r a in
    elim m.pays [
      | inl less ↦
          let f =
            alert-Finished n m.queue' m.crew' rest m.alert
              (subst (λ (k : ℕ). IsFair k n rest) (sym m.same_size) fair)
              (omega (arith, less, lt)) in
          record {
            crew' = f.crew';
            queue' = f.queue';
            ended =
                rw (split, map-append moves r rest)
                  (crew_run-append (map moves r) (map moves rest) crew m.crew' m.ended ∙ f.ended);
            crewed = f.crewed;
            same_added = f.same_added ∙ m.same_added;
            all_ended = λ p. f.all_ended p ∙ ap (sum_of p) m.same_added;
          }
      | inr idle ↦
          still_ended queue crew is a
            (all_over queue crew a (λ i t e.
              let (j, at) = whole i (get_elem?-some-lt crew.threads i t e) in idle j i at t e))
            (moves-NearerAll queue crew is a)
    ]

-- Let `threadPoolCreate` be called with at least one first thread and no more than there are slots, with
-- room for a task, in memory that holds 0 where `queueSize` lies, and let the threads, clients and the
-- manager then do whatever they do, in any order: the manager asks no thread to leave, and gives none the
-- number 0. Then every run in which nothing is added and each thread moves more often than there is work
-- left, by `work_left`, in any order, ends every task that was ever added, once for each time that it
-- was added. A thread that waits moves only when it has been woken.
pub created_crew-Finished :
    (tid : ℕ → ℕ) (old_tasks : List Task) (min max n : ℕ) (acts : List Action) (crew : Crew)
    (is : List ℕ)
    → ((i : ℕ) → tid i ≢ 0)
    → 1 ≤ min
    → min ≤ max
    → 0 < length old_tasks
    → IsNumbered acts
    → keeps_threads acts ≡ true
    → create_crew tid 0 old_tasks min max >>= crew_run acts ≡ ok crew
    → IsFair (length crew.threads) n is
    → work_left crew < n
    → Finished min crew (crew_run (map moves is) crew)
created_crew-Finished tid old_tasks min max n acts crew is nz least le room ns k e fair lt =
    let c = create_crew-IsCreated tid old_tasks min max nz le room in
    let start : IsAlert min [] (fresh_crew old_tasks min max c.ids) = record {
      crewed = c.crewed;
      no_exit = refl;
      up = λ h. absurd (omega arith);
    } in
    let ran = crew_run-Alerted [] (fresh_crew old_tasks min max c.ids) acts least ns k start in
    let same : ran.crew ≡ crew =
      ok-inj (sym ran.ended ∙ sym (ap (λ (o : Outcome Crew). o >>= crew_run acts) c.ended) ∙ e) in
    alert-Finished n ran.queue crew is (subst (IsAlert min ran.queue) same ran.alert) fair lt
