-- ===== src/ThreadPool/Crew/Invariant.antt =====
-- What holds of a pool and its threads in every run.
use my_ceph.Common.{ℕ, ◌≡◌, ◌≢◌, refl, List, [], ◌∷◌, get_elem?}
use my_ceph.ThreadPool.{Task}
use my_ceph.ThreadPool.Crew.{
  Crew, Action, moves, adds, signals, grows, shrinks, rouse, crew_step, crew_run,
}
use my_ceph.ThreadPool.Crew.Count.{IsCrewed}
use my_ceph.ThreadPool.Crew.Acts.{
  Kept, rouse-IsCrewed, move_thread-Kept, add-Kept, grow-Kept, shrink-Kept,
}

-- The manager is given no thread with the number 0.
unfoldable pub IsNumberedOne : Action → Type 0
IsNumberedOne (grows tid queue_size live_num) = (i : ℕ) → tid i ≢ 0
IsNumberedOne (moves i) = i ≡ i
IsNumberedOne (adds task k) = task ≡ task
IsNumberedOne (signals k) = k ≡ k
IsNumberedOne (shrinks busy_num live_num) = busy_num ≡ busy_num

unfoldable pub IsNumbered : List Action → Type 0
unfolding IsNumberedOne
IsNumbered [] = Path ℕ 0 0
IsNumbered (a ∷ acts) = IsNumberedOne a × IsNumbered acts

pub crew_step-Kept :
    {min : ℕ} (queue : List Task) (crew : Crew) (a : Action)
    → IsNumberedOne a
    → IsCrewed min queue crew
    → Kept min (crew_step a crew)
unfolding IsNumberedOne
crew_step-Kept queue crew (moves i) n c =
    unfold crew_step in move_thread-Kept queue crew i (get_elem? crew.threads i) c refl
crew_step-Kept queue crew (adds task k) n c = add-Kept queue crew task k c
crew_step-Kept queue crew (signals k) n c = record {
  crew = record crew { threads = rouse k crew.threads };
  queue = queue;
  ended = unfold crew_step in refl;
  crewed = rouse-IsCrewed queue crew k c;
}
crew_step-Kept queue crew (grows tid queue_size live_num) n c =
    grow-Kept queue crew tid queue_size live_num n c
crew_step-Kept queue crew (shrinks busy_num live_num) n c =
    shrink-Kept queue crew busy_num live_num c

-- Let a running pool and its threads agree, by `IsCrewed`, and let no thread that the manager starts
-- have the number 0. Then every run of the threads, a client and the manager returns, with no access
-- outside an array, to a pool and threads that agree again: as many threads are counted as busy as run
-- a task, as many as live as are neither gone nor about to leave, each thread that is not gone has its
-- number in a slot, and each task that was added is in the ring, in the hands of one thread, or has
-- ended, once for each time that it was added.
pub crew_run-Kept :
    {min : ℕ} (queue : List Task) (crew : Crew) (acts : List Action)
    → IsNumbered acts
    → IsCrewed min queue crew
    → Kept min (crew_run acts crew)
unfolding crew_run IsNumbered
crew_run-Kept queue crew [] n c = record { crew = crew; queue = queue; ended = refl; crewed = c }
crew_run-Kept queue crew (a ∷ acts) (n, ns) c =
    let first = crew_step-Kept queue crew a n c in
    let rest = crew_run-Kept first.queue first.crew acts ns first.crewed in
    record {
      crew = rest.crew;
      queue = rest.queue;
      ended = rw (first.ended, rest.ended) refl;
      crewed = rest.crewed;
    }
