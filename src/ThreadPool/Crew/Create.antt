-- ===== src/ThreadPool/Crew/Create.antt =====
-- `threadPoolCreate` with its threads.
use my_ceph.Common.{
  some-inj, ℕ, zero, suc, ◌+◌, ◌≤◌, ◌<◌, ◌≡◌, ◌≢◌, ◌==◌, refl, sym, ◌∙◌, arith, lt→ltb,
  if◌then◌else◌, List, [], ◌∷◌, length, length-set, get_elem?, get_elem?-set_ne, set, replicate,
  length-replicate, some, Outcome, ok,
}
use my_ceph.ThreadPool.{Task, store_id, start_threads}
use my_ceph.ThreadPool.Threads.{count_live}
use my_ceph.ThreadPool.Create.{fresh_pool, fresh_pool-Holds, thread_pool_create_fresh}
use my_ceph.ThreadPool.Crew.{Crew, new_threads, create_crew}
use my_ceph.ThreadPool.Crew.Sums.{sum_of}
use my_ceph.ThreadPool.Crew.Count.{is_id, IsCrewed}
use my_ceph.ThreadPool.Crew.Start.{IsStarted, new_threads-IsStarted}

-- A free slot is filled.
count_live-set :
    (ids : List ℕ) (i v : ℕ)
    → get_elem? ids i ≡ some 0
    → v ≢ 0
    → count_live (set ids i v) ≡ count_live ids + 1
unfolding count_live
count_live-set [] i v h nz = absurd (cc)
count_live-set (id ∷ ids) zero v h nz = rw (some-inj h) (ground arith)
count_live-set (id ∷ ids) (suc i) v h nz = omega (arith, count_live-set ids i v h nz)

-- From slot `i` on, no slot is taken.
IsFreeFrom : ℕ → List ℕ → Type 0
IsFreeFrom i ids = (j : ℕ) → i ≤ j → j < length ids → get_elem? ids j ≡ some 0

-- The first threads have been started.
record AreStarted (rounds : ℕ) (ids : List ℕ) (r : Outcome (List ℕ)) : Type 0 where
  ids' : List ℕ
  ended : r ≡ ok ids'
  same_slots : length ids' ≡ length ids
  counted : count_live ids' ≡ count_live ids + rounds

get_elem?-replicate_zero : (max j id : ℕ) → get_elem? (replicate max 0) j ≡ some id → id ≡ 0
get_elem?-replicate_zero zero j id h = absurd (cc)
get_elem?-replicate_zero (suc max) zero id h = sym (some-inj h)
get_elem?-replicate_zero (suc max) (suc j) id h = get_elem?-replicate_zero max j id h

get_elem?-replicate_lt : (max j : ℕ) → j < max → get_elem? {A = ℕ} (replicate max 0) j ≡ some 0
get_elem?-replicate_lt zero j lt = absurd (omega arith)
get_elem?-replicate_lt (suc max) zero lt = refl
get_elem?-replicate_lt (suc max) (suc j) lt = get_elem?-replicate_lt max j (omega arith)

count_live-replicate : (max : ℕ) → count_live (replicate max 0) ≡ 0
unfolding count_live
count_live-replicate zero = refl
count_live-replicate (suc max) = omega (arith, count_live-replicate max)

sum_of-replicate : (x max : ℕ) → x ≢ 0 → sum_of (is_id x) (replicate max 0) ≡ 0
unfolding sum_of
sum_of-replicate x zero xnz = refl
sum_of-replicate x (suc max) xnz = zero_is xnz (sum_of-replicate x max xnz)
  where
    zero_is :
        x ≢ 0
        → sum_of (is_id x) (replicate max 0) ≡ 0
        → (if 0 == x then 1 else 0) + sum_of (is_id x) (replicate max 0) ≡ 0
    zero_is h e = ground arith

module _ (tid : ℕ → ℕ) (nz : (i : ℕ) → tid i ≢ 0) where
  start_threads-AreStarted :
      (rounds i : ℕ) (ids : List ℕ)
      → i + rounds ≤ length ids
      → IsFreeFrom i ids
      → AreStarted rounds ids (start_threads tid rounds i ids)
  unfolding start_threads store_id IsFreeFrom
  start_threads-AreStarted zero i ids le free = record {
    ids' = ids;
    ended = refl;
    same_slots = refl;
    counted = omega arith;
  }
  start_threads-AreStarted (suc rounds) i ids le free =
      let s =
        start_threads-AreStarted rounds (i + 1) (set ids i (tid i))
          (omega (arith, length-set ids i (tid i))) later in
      record {
        ids' = s.ids';
        ended = rw (lt→ltb i (length ids) (omega arith)) s.ended;
        same_slots = s.same_slots ∙ length-set ids i (tid i);
        counted = omega (
          arith,
          s.counted,
          count_live-set ids i (tid i) (free i (omega arith) (omega arith)) (nz i),
        );
      }
    where
      later :
          (j : ℕ)
          → i + 1 ≤ j
          → j < length (set ids i (tid i))
          → get_elem? (set ids i (tid i)) j ≡ some 0
      later j lo hi =
          get_elem?-set_ne ids (tid i) (λ e. absurd (omega (arith, lo, e)))
          ∙ free j (omega arith) (omega (arith, length-set ids i (tid i)))

abbrev pub fresh_crew : List Task → ℕ → ℕ → List ℕ → Crew
fresh_crew old_tasks min max ids = record {
  pool = fresh_pool old_tasks min max ids;
  threads = new_threads (replicate max 0) ids;
  added_tasks = [];
  ended_tasks = [];
}

fresh_crew-IsCrewed :
    (old_tasks : List Task) (min max : ℕ) (ids : List ℕ)
    → 0 < length old_tasks
    → count_live ids ≡ count_live (replicate max 0) + min
    → IsStarted (replicate max 0) ids (new_threads (replicate max 0) ids)
    → IsCrewed min [] (fresh_crew old_tasks min max ids)
unfolding sum_of
fresh_crew-IsCrewed old_tasks min max ids room counted t = record {
  ring = fresh_pool-Holds old_tasks min max ids room;
  staff = record { least = refl; staffed = omega arith; asked = omega arith };
  busy = sym t.idle;
  live = omega (arith, counted, t.slots, t.staying, count_live-replicate max);
  slots = omega (arith, t.slots, count_live-replicate max);
  owned = λ x xnz. omega (arith, t.owned x xnz, sum_of-replicate x max xnz);
  nonzero = t.nonzero;
  conserved = λ p. omega (arith, t.empty p);
}

-- A pool that has been created, with its first threads.
pub record IsCreated (old_tasks : List Task) (min max : ℕ) (o : Outcome Crew) : Type 0 where
  pub ids : List ℕ
  pub ended : o ≡ ok (fresh_crew old_tasks min max ids)
  pub crewed : IsCrewed min [] (fresh_crew old_tasks min max ids)

pub create_crew-IsCreated :
    (tid : ℕ → ℕ) (old_tasks : List Task) (min max : ℕ)
    → ((i : ℕ) → tid i ≢ 0)
    → min ≤ max
    → 0 < length old_tasks
    → IsCreated old_tasks min max (create_crew tid 0 old_tasks min max)
unfolding create_crew IsFreeFrom
create_crew-IsCreated tid old_tasks min max nz le room =
    let slots = length-replicate {A = ℕ} max 0 in
    let s =
      start_threads-AreStarted tid nz min 0 (replicate max 0) (omega (arith, slots))
        (λ j lo hi. get_elem?-replicate_lt max j (omega (arith, slots, hi))) in
    let t =
      new_threads-IsStarted (replicate max 0) s.ids' s.same_slots
        (λ j id h e. absurd (h (get_elem?-replicate_zero max j id e))) in
    record {
      ids = s.ids';
      ended = rw (thread_pool_create_fresh tid old_tasks min max s.ids' s.ended) refl;
      crewed = fresh_crew-IsCrewed old_tasks min max s.ids' room s.counted t;
    }
