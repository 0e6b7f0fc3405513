-- ===== src/Workers/Reached.antt =====
-- What any schedule of the three workers comes to: no fault, an end when each has had enough steps,
-- and entries that stay.
use my_ceph.Common.{
  ℕ, ◌+◌, ◌-◌, ◌*◌, ◌≤◌, ◌==◌, ◌≡◌, ◌≢◌, inl, inr, refl, sym, ap, ◌∙◌, subst, arith, true, false,
  if◌then◌else◌, List, [], ◌∷◌, Outcome, ok, ok-inj,
}
use my_ceph.CrushMap.{CrushBucketStraw2}
use my_ceph.Mapper.Memory.{Mem, Pointer, read}
use my_ceph.Mapper.Memory.Shape.{shape}
use my_ceph.Mapper.Loops.{Fuel}
use my_ceph.Workers.{FirstnInfo, Globals}
use my_ceph.Workers.Steps.{
  Phase, descends, compares, notes, writes, finished, worker_step, Worker, worker1, worker2,
  worker3, worker_number, System, phase_of, with_phase, counted, system_step, system_run, at_start,
}
use my_ceph.Mapper.Turn.Total.{CountsFit}
use my_ceph.Workers.Progress.{Counts, IsPhase, steps_left, done}
use my_ceph.Workers.Places.{mem-with_phase, phase_of-with_phase, same_or_other}
use my_ceph.Workers.Schedule.{IsReady, IsRunning, IsCounted, distance, Steps, system_step-Steps}

-- How often a schedule names a worker.
unfoldable pub occurrences : Worker → List Worker → ℕ
unfolding worker_number
occurrences v [] = 0
occurrences v (w ∷ ws) =
    let rest = occurrences v ws in if worker_number v == worker_number w then rest + 1 else rest

-- A bound on the steps of a worker.
abbrev pub enough : (CrushBucketStraw2 → ℕ) → FirstnInfo → ℕ
enough height f =
    3 * (f.tries * (f.local_retries + height f.bucket + 1) + (f.local_retries + height f.bucket))
    + 4

-- Where a schedule leads.
pub record Runs (height : CrushBucketStraw2 → ℕ) (sh : List ℕ) (f : FirstnInfo) (ws : List Worker)
    (s : System) (m : Outcome System) : Type 0 where
  pub last : System
  pub returned : m ≡ ok last
  pub running : IsRunning height sh f last
  pub nearer :
      IsCounted f s
      → (v : Worker) → distance height f v last ≤ distance height f v s - occurrences v ws
  pub stays :
      (v : Worker)
      → phase_of v s ≡ finished
      → (q : Pointer) → read last.mem q (worker_number v) ≡ read s.mem q (worker_number v)

pub finished_of :
    (height : CrushBucketStraw2 → ℕ) (tries retries : ℕ) (top : CrushBucketStraw2) (p : Phase)
    → steps_left height tries retries top p ≡ 0
    → p ≡ finished
finished_of height tries retries top (descends b ft fl item) e = absurd (omega arith)
finished_of height tries retries top (compares b ty r ft fl item) e = absurd (omega arith)
finished_of height tries retries top (notes b ty r ft fl item) e = absurd (omega arith)
finished_of height tries retries top (writes item) e = absurd (omega arith)
finished_of height tries retries top finished e = refl

pub done_of : (p : Phase) → (done p ≡ 1) → p ≡ finished
done_of (descends b ft fl item) e = absurd (omega arith)
done_of (compares b ty r ft fl item) e = absurd (omega arith)
done_of (notes b ty r ft fl item) e = absurd (omega arith)
done_of (writes item) e = absurd (omega arith)
done_of finished e = refl

done-le : (p : Phase) → done p ≤ 1
done-le (descends b ft fl item) = omega arith
done-le (compares b ty r ft fl item) = omega arith
done-le (notes b ty r ft fl item) = omega arith
done-le (writes item) = omega arith
done-le finished = omega arith

module _ {height : CrushBucketStraw2 → ℕ} {sh : List ℕ} (fuel : Fuel) (g : Globals) (f : FirstnInfo)
    (r : IsReady height sh g f) where
  -- A worker that is done does nothing.
  idle :
      (w : Worker) (s : System)
      → phase_of w s ≡ finished
      → system_step fuel g f w s ≡ ok (with_phase w finished (record s { mem = s.mem }))
  unfolding system_step worker_step counted
  idle w s h = rw h refl

  pub stays_once :
      (w v : Worker) (s : System) {next : System}
      → system_step fuel g f w s ≡ ok next
      → ((q : Pointer) (i : ℕ) → i ≢ worker_number w → read next.mem q i ≡ read s.mem q i)
      → phase_of v s ≡ finished
      → (q : Pointer) → read next.mem q (worker_number v) ≡ read s.mem q (worker_number v)
  stays_once w v s {next} h others fin q = elim (same_or_other v w) [
    | inl same ↦
        let e = ok-inj (sym (idle w s (subst (λ u. phase_of u s ≡ finished) same fin)) ∙ h) in
        ap (λ (m : Mem). read m q (worker_number v))
          (sym (ap (λ (t : System). t.mem) e) ∙ mem-with_phase w finished s)
    | inr ne ↦ others q (worker_number v) ne
  ]

  -- The bound of each worker along a step and the steps behind it.
  nearer_then :
      (w v : Worker) (ws : List Worker) (s : System) {m : Outcome System}
      (t : Steps height sh f w s m) (c : IsCounted f s) (d : ℕ)
      → d ≤ distance height f v t.next - occurrences v ws
      → d ≤ distance height f v s - occurrences v (w ∷ ws)
  unfolding occurrences
  nearer_then w v ws s t c d le = elim (same_or_other v w) [
    | inl same ↦
        let e = ap (λ (u : Worker). distance height f u t.next) same in
        let e' = ap (λ (u : Worker). distance height f u s) same in
        rw (hit (ap worker_number same)) (omega (arith, (t.nearer c).1, e, e'))
    | inr ne ↦
        let e = ap (steps_left height f.tries f.local_retries f.bucket) (t.frame v ne) in
        rw (miss ne) (omega (arith, e))
  ]
    where
      hit : worker_number v ≡ worker_number w → (worker_number v == worker_number w) ≡ true
      hit e = ground arith

      miss : worker_number v ≢ worker_number w → (worker_number v == worker_number w) ≡ false
      miss e = ground arith

  pub still_finished :
      (w v : Worker) (s next : System)
      → system_step fuel g f w s ≡ ok next
      → ((u : Worker) → worker_number u ≢ worker_number w → phase_of u next ≡ phase_of u s)
      → phase_of v s ≡ finished
      → phase_of v next ≡ finished
  still_finished w v s next h frame fin = elim (same_or_other v w) [
    | inl same ↦
        let e = ok-inj (sym (idle w s (subst (λ u. phase_of u s ≡ finished) same fin)) ∙ h) in
        ap (λ (u : Worker). phase_of u next) same
        ∙ ap (phase_of w) (sym e)
        ∙ phase_of-with_phase w finished s
    | inr ne ↦ frame v ne ∙ fin
  ]

  pub system_run-Runs :
      (ws : List Worker) (s : System)
      → IsRunning height sh f s
      → Runs height sh f ws s (system_run fuel g f ws s)
  unfolding system_run occurrences
  system_run-Runs [] s run = record {
    last = s;
    returned = refl;
    running = run;
    nearer = λ c v. omega arith;
    stays = λ v fin q. refl;
  }
  system_run-Runs (w ∷ ws) s run =
      let t = system_step-Steps fuel g f r w s run in
      let behind = system_run-Runs ws t.next t.running in
      record {
        last = behind.last;
        returned = rw t.returned behind.returned;
        running = behind.running;
        nearer = λ c v. nearer_then w v ws s t c _ (behind.nearer (t.nearer c).0 v);
        stays = λ v fin q.
            behind.stays v (still_finished w v s t.next t.returned t.frame fin) q
            ∙ stays_once w v s t.returned t.others fin q;
      }

  pub at_start-IsRunning :
      (mem : Mem) → f.outpos ≡ 0 → shape mem ≡ sh → IsRunning height sh f (at_start f mem)
  unfolding at_start phase_of
  at_start-IsRunning mem z e = record {
    valid = λ w.
        elim w as (λ u. IsPhase f.map height f.recurse_to_leaf (phase_of u (at_start f mem))) [
          | worker1 ↦ r.top
          | worker2 ↦ r.top
          | worker3 ↦ r.top
        ];
    shaped = e;
    count = z;
  }

  pub at_start-IsCounted :
      (mem : Mem) → CountsFit f.tries f.local_retries → IsCounted f (at_start f mem)
  unfolding at_start phase_of
  at_start-IsCounted mem fit = record {
    fit = fit;
    counts = λ w. elim w as (λ u. Counts f.tries f.local_retries (phase_of u (at_start f mem))) [
      | worker1 ↦ (omega arith, omega arith)
      | worker2 ↦ (omega arith, omega arith)
      | worker3 ↦ (omega arith, omega arith)
    ];
  }

  pub all_finished :
      (s : System) → IsRunning height sh f s → s.outpos ≡ 3 → (w : Worker) → phase_of w s ≡ finished
  unfolding phase_of
  all_finished s run e worker1 =
      done_of s.phase1
        (omega (arith, run.count, e, done-le s.phase1, done-le s.phase2, done-le s.phase3))
  all_finished s run e worker2 =
      done_of s.phase2
        (omega (arith, run.count, e, done-le s.phase1, done-le s.phase2, done-le s.phase3))
  all_finished s run e worker3 =
      done_of s.phase3
        (omega (arith, run.count, e, done-le s.phase1, done-le s.phase2, done-le s.phase3))

  pub three_done :
      (s : System)
      → IsRunning height sh f s
      → ((w : Worker) → phase_of w s ≡ finished)
      → s.outpos ≡ 3
  unfolding phase_of
  three_done s run fin =
      omega (arith, run.count, ap done (fin worker1), ap done (fin worker2), ap done (fin worker3))

  minus_zero : (n : ℕ) → n - 0 ≡ n
  minus_zero n = omega arith

  pub distance-at_start :
      (w : Worker) (mem : Mem) → distance height f w (at_start f mem) ≡ enough height f
  unfolding at_start phase_of
  distance-at_start worker1 mem = rw (minus_zero f.tries, minus_zero f.local_retries) refl
  distance-at_start worker2 mem = rw (minus_zero f.tries, minus_zero f.local_retries) refl
  distance-at_start worker3 mem = rw (minus_zero f.tries, minus_zero f.local_retries) refl
