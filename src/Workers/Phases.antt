-- ===== src/Workers/Phases.antt =====
-- The phases of the first worker, which depend on nothing that the others do.
use my_ceph.Common.{
  ℕ, zero, suc, ◌<◌, ◌≡◌, ◌≢◌, sym, ap, ℕ_discrete, dec_lt, ◌∙◌, subst, arith, List, Outcome, ok, ℤ,
  pos,
}
use my_ceph.CrushMap.{CrushBucketStraw2}
use my_ceph.Mapper.Memory.{Mem}
use my_ceph.Mapper.Memory.Shape.{shape}
use my_ceph.Mapper.Turn.Same.{with_leaf}
use my_ceph.Mapper.Loops.{Fuel}
use my_ceph.Workers.{FirstnInfo, Globals, worker_attempt}
use my_ceph.Workers.Steps.{Phase, descends, writes, finished, worker_step, worker1, worker_number}
use my_ceph.Workers.Progress.{IsPhase, done, done_next}
use my_ceph.Workers.Moves.{worker_step-Moves}
use my_ceph.Workers.Schedule.{IsReady, attempt_of-IsWorker, worker_step_same, no_leaf}
use my_ceph.Workers.Reached.{done_of}
use my_ceph.Workers.First.{first, worker_step_same_phase}

abbrev pub phase_in : Outcome (Phase × Mem) → Phase
phase_in (ok r) = r.0
phase_in _ = finished

module _ {height : CrushBucketStraw2 → ℕ} {sh : List ℕ} (fuel : Fuel) (g : Globals) (f : FirstnInfo)
    (r : IsReady height sh g f) (m0 : Mem) (e0 : shape m0 ≡ sh) where
  abbrev pub IsValid : Phase → Type 0
  IsValid p = IsPhase f.map height f.recurse_to_leaf p

  -- The phase behind a phase of the first worker.
  unfoldable pub behind : Phase → Phase
  behind p = phase_in (worker_step (first fuel g f r.no_args 0) p m0)

  -- What a step of the first worker comes to over some array.
  pub step_of :
      (p : Phase)
      → IsValid p
      → (q : Phase) × (l : Mem) × (worker_step (first fuel g f r.no_args 0) p m0 ≡ ok (q, l))
        × IsValid q
        × (done q ≡ done_next p)
  unfolding worker_attempt worker_number
  step_of p v =
      let moved =
        worker_step-Moves (with_leaf (first fuel g f r.no_args 0) (no_leaf fuel g f r))
          (attempt_of-IsWorker fuel g f r worker1 0) p m0 v e0 in
      (
        moved.phase,
        moved.mem',
        sym (worker_step_same height (first fuel g f r.no_args 0) (no_leaf fuel g f r) p m0 v)
            ∙ moved.returned,
        moved.valid,
        moved.over,
      )

  -- Every step of it leads there.
  pub step-behind :
      (p q : Phase) (n : ℕ) (mem l : Mem)
      → IsValid p
      → worker_step (first fuel g f r.no_args n) p mem ≡ ok (q, l)
      → q ≡ behind p
  unfolding behind
  step-behind p q n mem l v h =
      let (q0, l0, e, v0, d) = step_of p v in
      worker_step_same_phase fuel g f r.no_args height p q q0 n 0 mem m0 l l0 v h e
      ∙ sym (ap phase_in e)

  -- The phases of the first worker, one after the other.
  unfoldable pub nth_phase : ℕ → Phase
  nth_phase zero = descends f.bucket 0 0 (pos 0)
  nth_phase (suc k) = behind (nth_phase k)

  nth_phase-IsValid : (k : ℕ) → IsValid (nth_phase k)
  unfolding nth_phase behind
  nth_phase-IsValid zero = r.top
  nth_phase-IsValid (suc k) =
      let (q, l, e, v, d) = step_of (nth_phase k) (nth_phase-IsValid k) in
      subst IsValid (sym (ap phase_in e)) v

  done-nth_phase : (k : ℕ) → done (nth_phase (suc k)) ≡ done_next (nth_phase k)
  unfolding nth_phase behind
  done-nth_phase k =
      let (q, l, e, v, d) = step_of (nth_phase k) (nth_phase-IsValid k) in
      ap (λ o. done (phase_in o)) e ∙ d

  -- Once the worker writes, it is done from then on.
  done_later : (k j : ℕ) {item : ℤ} → nth_phase k ≡ writes item → k < j → done (nth_phase j) ≡ 1
  done_later k zero h lt = absurd (omega arith)
  done_later k (suc j) h lt = elim (ℕ_discrete k j) [
    | yes same ↦ done-nth_phase j ∙ ap done_next (sym (ap nth_phase same) ∙ h)
    | no ne ↦
        done-nth_phase j ∙ ap done_next (done_of (nth_phase j) (done_later k j h (omega arith)))
  ]

  not_writes : (p : Phase) {item : ℤ} → p ≡ writes item → done p ≢ 1
  not_writes p h e = absurd (omega (arith, ap done h))

  item_of : Phase → ℤ
  item_of (writes item) = item
  item_of _ = pos 0

  pub writes_once : (k j : ℕ) {i i' : ℤ} → nth_phase k ≡ writes i → nth_phase j ≡ writes i' → i ≡ i'
  unfolding item_of
  writes_once k j h h' = elim (ℕ_discrete k j) [
    | yes same ↦ ap item_of (sym h ∙ ap nth_phase same ∙ h')
    | no ne ↦ elim (dec_lt k j) [
      | yes lt ↦ absurd (not_writes (nth_phase j) h' (done_later k j h lt))
      | no ge ↦ absurd (not_writes (nth_phase k) h (done_later j k h' (omega arith)))
    ]
  ]
