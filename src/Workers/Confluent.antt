-- ===== src/Workers/Confluent.antt =====
-- What the first worker writes is the same under every schedule.
use my_ceph.Common.{
  ℕ, suc, ◌≡◌, ◌≢◌, inl, inr, refl, sym, ap, ◌∙◌, subst, arith, List, [], ◌∷◌, ok, ok-inj,
  >>=-eq-ok, ℤ,
}
use my_ceph.CrushMap.{CrushBucketStraw2}
use my_ceph.Mapper.Memory.{Mem, read, write, read-write}
use my_ceph.Mapper.Memory.Shape.{shape}
use my_ceph.Mapper.Loops.{Fuel}
use my_ceph.Workers.{FirstnInfo, Globals, worker_attempt}
use my_ceph.Workers.Steps.{
  Phase, descends, compares, notes, writes, finished, worker_step, Worker, worker1, worker_number,
  System, phase_of, with_phase, system_step, system_run, at_start,
}
use my_ceph.Workers.Progress.{done, done_next}
use my_ceph.Workers.Places.{same_or_other}
use my_ceph.Workers.Schedule.{IsReady, IsRunning, system_step-Steps}
use my_ceph.Workers.Reached.{at_start-IsRunning}
use my_ceph.Workers.First.{first}
use my_ceph.Workers.Phases.{phase_in, IsValid, behind, step_of, step-behind, nth_phase, writes_once}

module _ {height : CrushBucketStraw2 → ℕ} {sh : List ℕ} (fuel : Fuel) (g : Globals) (f : FirstnInfo)
    (r : IsReady height sh g f) (m0 : Mem) (e0 : shape m0 ≡ sh) where
  -- The first worker stands at one of these phases, and has written its item when it is done.
  record Tracks (s : System) : Type 0 where
    running : IsRunning height sh f s
    place : (k : ℕ) × (phase_of worker1 s ≡ nth_phase fuel g f r m0 e0 k)
    wrote :
        phase_of worker1 s ≡ finished
        → (j : ℕ) × (item : ℤ) × (nth_phase fuel g f r m0 e0 j ≡ writes item)
          × (read s.mem f.out 0 ≡ ok item)

  abbrev Wrote : Mem → Type 0
  Wrote mem =
      (j : ℕ) × (item : ℤ) × (nth_phase fuel g f r m0 e0 j ≡ writes item)
      × (read mem f.out 0 ≡ ok item)

  -- Only a worker that writes or is done is done behind the next step.
  not_finished :
      (p q : Phase) (n : ℕ) (mem l : Mem)
      → IsValid fuel g f r m0 e0 p
      → worker_step (first fuel g f r.no_args n) p mem ≡ ok (q, l)
      → done_next p ≡ 0
      → q ≢ finished
  unfolding behind
  not_finished p q n mem l v h z fin =
      let (q0, l0, e, v0, d) = step_of fuel g f r m0 e0 p v in
      let same = step-behind fuel g f r m0 e0 p q n mem l v h ∙ ap phase_in e in
      absurd (omega (arith, ap done same, ap done fin, d, z))

  Wrote-worker_step :
      (p q : Phase) (n k : ℕ) (mem l : Mem)
      → IsValid fuel g f r m0 e0 p
      → p ≡ nth_phase fuel g f r m0 e0 k
      → (p ≡ finished → Wrote mem)
      → worker_step (first fuel g f r.no_args n) p mem ≡ ok (q, l)
      → q ≡ finished
      → Wrote l
  unfolding worker_step worker_attempt
  Wrote-worker_step (descends b ft fl item) q n k mem l v at before h fin =
      absurd (not_finished (descends b ft fl item) q n mem l v h refl fin)
  Wrote-worker_step (compares b ty x ft fl item) q n k mem l v at before h fin =
      absurd (not_finished (compares b ty x ft fl item) q n mem l v h refl fin)
  Wrote-worker_step (notes b ty x ft fl item) q n k mem l v at before h fin =
      absurd (not_finished (notes b ty x ft fl item) q n mem l v h refl fin)
  Wrote-worker_step (writes item) q n k mem l v at before h fin =
      let (m, e, j) = >>=-eq-ok (write mem f.out 0 item) _ h in
      (
        k,
        item,
        sym at,
        subst (λ (u : Mem). read u f.out 0 ≡ ok item) (ap (λ (s : Phase × Mem). s.1) (ok-inj j))
            (read-write mem f.out 0 item e),
      )
  Wrote-worker_step finished q n k mem l v at before h fin =
      subst Wrote (ap (λ (s : Phase × Mem). s.1) (ok-inj h)) (before refl)

  first_step-Tracks :
      (s t : System)
      → Tracks s
      → IsRunning height sh f t
      → system_step fuel g f worker1 s ≡ ok t
      → Tracks t
  unfolding system_step phase_of with_phase worker_number nth_phase
  first_step-Tracks s t tr run h =
      let ((q, l), e, j) =
        >>=-eq-ok (worker_step (first fuel g f r.no_args s.outpos) s.phase1 s.mem) _ h in
      let same = ap (λ (u : System). u.phase1) (ok-inj j) in
      let arrays = ap (λ (u : System). u.mem) (ok-inj j) in
      let (k, at) = tr.place in
      let v = tr.running.valid worker1 in
      record {
        running = run;
        place = (
          suc k,
          sym same
              ∙ step-behind fuel g f r m0 e0 s.phase1 q s.outpos s.mem l v e
              ∙ ap (behind fuel g f r m0 e0) at,
        );
        wrote = λ fin.
            subst Wrote arrays
              (Wrote-worker_step s.phase1 q s.outpos k s.mem l v at tr.wrote e (same ∙ fin));
      }

  system_step-Tracks :
      (w : Worker) (s t : System) → Tracks s → system_step fuel g f w s ≡ ok t → Tracks t
  unfolding worker_number
  system_step-Tracks w s t tr h =
      let st = system_step-Steps fuel g f r w s tr.running in
      let e = ok-inj (sym st.returned ∙ h) in
      let run = subst (IsRunning height sh f) e st.running in
      elim (same_or_other worker1 w) [
        | inl same ↦
            first_step-Tracks s t tr run
              (subst (λ (u : Worker). system_step fuel g f u s ≡ ok t) (sym same) h)
        | inr ne ↦
            let stays = sym (ap (phase_of worker1) e) ∙ st.frame worker1 ne in
            record {
              running = run;
              place = (tr.place.0, stays ∙ tr.place.1);
              wrote = λ fin.
                  let (j, item, at, e') = tr.wrote (sym stays ∙ fin) in
                  (
                    j,
                    item,
                    at,
                    ap (λ (u : System). read u.mem f.out 0) (sym e) ∙ st.others f.out 0 ne ∙ e',
                  );
            }
      ]

  system_run-Tracks :
      (ws : List Worker) (s t : System) → Tracks s → system_run fuel g f ws s ≡ ok t → Tracks t
  unfolding system_run
  system_run-Tracks [] s t tr h = subst Tracks (ok-inj h) tr
  system_run-Tracks (w ∷ ws) s t tr h =
      let (u, e, k) = >>=-eq-ok (system_step fuel g f w s) _ h in
      system_run-Tracks ws u t (system_step-Tracks w s u tr e) k

  at_start-Tracks : (mem : Mem) → f.outpos ≡ 0 → shape mem ≡ sh → Tracks (at_start f mem)
  unfolding at_start phase_of nth_phase
  at_start-Tracks mem z e = record {
    running = at_start-IsRunning fuel g f r mem z e;
    place = (0, refl);
    wrote = λ fin. absurd (omega (arith, ap done fin));
  }

-- On a hierarchy in which devices are looked for, without `choose_args` and fallback retries, with
-- arrays that have room for three: whatever the arrays of the same lengths hold at the start and
-- whichever two schedules lead to states in which the first worker is done, the first entry of
-- `out` is the same item in both.
pub system_run_same_first :
    {height : CrushBucketStraw2 → ℕ} {sh : List ℕ} (fuel : Fuel) (g : Globals) (f : FirstnInfo)
    (ws ws' : List Worker) (mem mem' : Mem) (s s' : System)
    → IsReady height sh g f
    → f.outpos ≡ 0
    → shape mem ≡ sh
    → shape mem' ≡ sh
    → system_run fuel g f ws (at_start f mem) ≡ ok s
    → system_run fuel g f ws' (at_start f mem') ≡ ok s'
    → phase_of worker1 s ≡ finished
    → phase_of worker1 s' ≡ finished
    → (item : ℤ) × (read s.mem f.out 0 ≡ ok item) × (read s'.mem f.out 0 ≡ ok item)
system_run_same_first fuel g f ws ws' mem mem' s s' r z e e' h h' fin fin' =
    let tr =
      system_run-Tracks fuel g f r mem e ws (at_start f mem) s
        (at_start-Tracks fuel g f r mem e mem z e) h in
    let tr' =
      system_run-Tracks fuel g f r mem e ws' (at_start f mem') s'
        (at_start-Tracks fuel g f r mem e mem' z e') h' in
    let (j, item, at, eq) = tr.wrote fin in
    let (j', item', at', eq') = tr'.wrote fin' in
    (item, eq, eq' ∙ ap ok (writes_once fuel g f r mem e j' j at' at))
