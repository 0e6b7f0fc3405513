-- ===== src/Workers/Schedule.antt =====
-- The three workers of an object under any schedule: what holds in each state that they reach.
use my_ceph.Common.{
  ℕ, ◌+◌, ◌-◌, ◌≤◌, ◌≡◌, ◌≢◌, inl, inr, refl, sym, ap, ◌∙◌, subst, arith, List, length, none,
  Outcome, ok, pos, negsuc,
}
use my_ceph.CrushMap.{CrushBucketStraw2}
use my_ceph.Mapper.Memory.{Mem, Pointer, read}
use my_ceph.Mapper.Memory.Shape.{shape, Room, Room-mono}
use my_ceph.Mapper.Turn.{Attempt, on_reject, leaf_step, turn_inner}
use my_ceph.Mapper.Turn.Same.{with_leaf}
use my_ceph.Mapper.Turn.Total.{IsNode, IsHierarchy, CountsFit}
use my_ceph.Mapper.Loops.{Fuel}
use my_ceph.Workers.{FirstnInfo, Globals, worker_attempt}
use my_ceph.Workers.Steps.{
  Phase, descends, compares, notes, writes, finished, go_on, judge, classify, worker_step, Worker,
  worker_number, System, phase_of, with_phase, counted, system_step,
}
use my_ceph.Workers.Progress.{IsPhase, steps_left, done, done_next, Counts, IsWorker}
use my_ceph.Workers.Moves.{worker_step-Moves}
use my_ceph.Workers.Places.{
  number_lt, phase_of-with_phase, phase_of-with_phase_other, mem-with_phase, outpos-with_phase,
  all_done, all_done-with_phase, phase_of_shared, same_or_other,
}

-- The structure as the drivers fill it in: devices are looked for in a hierarchy, and the arrays
-- have room for three.
pub record IsReady (height : CrushBucketStraw2 → ℕ) (sh : List ℕ) (g : Globals) (f : FirstnInfo)
    : Type 0 where
  pub tree : IsHierarchy f.map height
  pub top : IsNode f.map height f.bucket
  pub weights : g.weight_max ≤ length f.weight
  pub no_args : f.choose_args ≡ none
  pub no_fallback : f.local_fallback_retries ≡ 0
  pub devices : f.type ≡ 0
  pub room : Room sh f.out 3
  pub room2 : f.recurse_to_leaf ≢ 0 → Room sh f.out2 3

-- Each worker is at a valid phase, and `outpos` counts those that are done.
pub record IsRunning (height : CrushBucketStraw2 → ℕ) (sh : List ℕ) (f : FirstnInfo) (s : System)
    : Type 0 where
  pub valid : (w : Worker) → IsPhase f.map height f.recurse_to_leaf (phase_of w s)
  pub shaped : shape s.mem ≡ sh
  pub count : s.outpos ≡ all_done s

-- How many more steps worker `w` can need.
abbrev pub distance : (CrushBucketStraw2 → ℕ) → FirstnInfo → Worker → System → ℕ
distance height f w s = steps_left height f.tries f.local_retries f.bucket (phase_of w s)

-- The recursive call does not matter at a valid phase.
pub worker_step_same :
    (height : CrushBucketStraw2 → ℕ) (a : Attempt)
    (l : CrushBucketStraw2 → ℕ → Mem → Outcome (ℕ × Mem)) (p : Phase) (mem : Mem)
    → IsPhase a.map height a.recurse_to_leaf p
    → worker_step (with_leaf a l) p mem ≡ worker_step a p mem
unfolding worker_step go_on judge classify on_reject leaf_step turn_inner
worker_step_same height a l (descends b ft fl item) mem v = refl
worker_step_same height a l (compares b ty r ft fl item) mem v = refl
worker_step_same height a l (notes b ty r ft fl (pos n)) mem v = refl
worker_step_same height a l (notes b ty r ft fl (negsuc n)) mem v = absurd v
worker_step_same height a l (writes item) mem v = refl
worker_step_same height a l finished mem v = refl

-- The counters of all three workers have not wrapped, and will not.
pub record IsCounted (f : FirstnInfo) (s : System) : Type 0 where
  pub fit : CountsFit f.tries f.local_retries
  pub counts : (w : Worker) → Counts f.tries f.local_retries (phase_of w s)

-- A step of the system that came to its end; it brings the worker nearer to its own, where no counter
-- wraps.
pub record Steps (height : CrushBucketStraw2 → ℕ) (sh : List ℕ) (f : FirstnInfo) (w : Worker)
    (s : System) (m : Outcome System) : Type 0 where
  pub next : System
  pub returned : m ≡ ok next
  pub running : IsRunning height sh f next
  pub nearer :
      IsCounted f s → IsCounted f next × (distance height f w next ≤ distance height f w s - 1)
  pub frame : (v : Worker) → worker_number v ≢ worker_number w → phase_of v next ≡ phase_of v s
  pub others : (p : Pointer) (i : ℕ) → i ≢ worker_number w → read next.mem p i ≡ read s.mem p i

counted-done : (p : Phase) (n : ℕ) → counted p n + done p ≡ n + done_next p
unfolding counted
counted-done (descends b ft fl item) n = refl
counted-done (compares b ty r ft fl item) n = refl
counted-done (notes b ty r ft fl item) n = refl
counted-done (writes item) n = omega arith
counted-done finished n = refl

module _ {height : CrushBucketStraw2 → ℕ} {sh : List ℕ} (fuel : Fuel) (g : Globals) (f : FirstnInfo)
    (r : IsReady height sh g f) where
  abbrev pub attempt_of : Worker → ℕ → Attempt
  attempt_of w n =
      worker_attempt fuel g (record f { outpos = n }) (worker_number w) (worker_number w)

  pub no_leaf : CrushBucketStraw2 → ℕ → Mem → Outcome (ℕ × Mem)
  no_leaf b s mem = ok (0, mem)

  pub attempt_of-IsWorker :
      (w : Worker) (n : ℕ) → IsWorker height sh (with_leaf (attempt_of w n) no_leaf)
  unfolding worker_attempt no_leaf
  attempt_of-IsWorker w n =
      let lt = number_lt w in
      record {
        set_up = record {
          tree = r.tree;
          weights = r.weights;
          no_args = r.no_args;
          no_fallback = r.no_fallback;
          room = Room-mono sh f.out (omega arith) r.room;
          room2 = λ rec. Room-mono sh f.out2 (omega arith) (r.room2 rec);
          leaf_returns = λ rec n b s mem e k. (0, mem, refl, k);
        };
        top = r.top;
        devices = r.devices;
        room = Room-mono sh f.out (omega arith) r.room;
      }

  -- The new state, from what the step of the worker did.
  stepped :
      (w : Worker) (s : System) (p' : Phase) (mem' : Mem)
      → IsRunning height sh f s
      → IsPhase f.map height f.recurse_to_leaf p'
      → shape mem' ≡ sh
      → done p' ≡ done_next (phase_of w s)
      → (CountsFit f.tries f.local_retries × Counts f.tries f.local_retries (phase_of w s)
          → Counts f.tries f.local_retries p'
            × (steps_left height f.tries f.local_retries f.bucket p' ≤ distance height f w s - 1))
      → ((q : Pointer) (i : ℕ) → i ≢ worker_number w → read mem' q i ≡ read s.mem q i)
      → Steps height sh f w s
          (ok (with_phase w p' (record s { outpos = counted (phase_of w s) s.outpos; mem = mem' })))
  stepped w s p' mem' run v e d le others =
      let n = counted (phase_of w s) s.outpos in
      let t = record s { outpos = n; mem = mem' } in
      let other = λ (u : Worker) (ne : worker_number u ≢ worker_number w).
        phase_of-with_phase_other u w p' t ne ∙ phase_of_shared u s n mem' in
      record {
        next = with_phase w p' t;
        returned = refl;
        running = record {
          valid = λ u. elim (same_or_other u w) [
            | inl same ↦
                subst
                  (λ (x : Worker).
                    IsPhase f.map height f.recurse_to_leaf (phase_of x (with_phase w p' t)))
                  (sym same)
                  (subst (IsPhase f.map height f.recurse_to_leaf) (sym (phase_of-with_phase w p' t))
                    v)
            | inr ne ↦
                subst (IsPhase f.map height f.recurse_to_leaf) (sym (other u ne)) (run.valid u)
          ];
          shaped = ap shape (mem-with_phase w p' t) ∙ e;
          count = omega (
            arith,
            outpos-with_phase w p' t,
            all_done-with_phase w p' t,
            ap done (phase_of_shared w s n mem'),
            counted-done (phase_of w s) s.outpos,
            d,
            run.count,
          );
        };
        nearer = λ c.
            let (here, less) = le (c.fit, c.counts w) in
            (
              record {
                fit = c.fit;
                counts = λ u. elim (same_or_other u w) [
                  | inl same ↦
                      subst
                        (λ (x : Worker).
                          Counts f.tries f.local_retries (phase_of x (with_phase w p' t)))
                        (sym same)
                        (subst (Counts f.tries f.local_retries) (sym (phase_of-with_phase w p' t))
                          here)
                  | inr ne ↦ subst (Counts f.tries f.local_retries) (sym (other u ne)) (c.counts u)
                ];
              },
              rw (phase_of-with_phase w p' t) less,
            );
        frame = other;
        others = λ q i ne. ap (λ (m : Mem). read m q i) (mem-with_phase w p' t) ∙ others q i ne;
      }

  pub system_step-Steps :
      (w : Worker) (s : System)
      → IsRunning height sh f s
      → Steps height sh f w s (system_step fuel g f w s)
  unfolding system_step worker_attempt
  system_step-Steps w s run =
      let p = phase_of w s in
      let a = attempt_of w s.outpos in
      let moved =
        worker_step-Moves (with_leaf a no_leaf) (attempt_of-IsWorker w s.outpos) p s.mem
          (run.valid w) run.shaped in
      rw (sym (worker_step_same height a no_leaf p s.mem (run.valid w)), moved.returned)
        (stepped w s moved.phase moved.mem' run moved.valid moved.shaped moved.over
          (λ c. ((moved.nearer c).0, omega (arith, (moved.nearer c).1))) moved.others)
