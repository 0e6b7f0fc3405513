-- ===== src/Workers/Order.antt =====
-- The run of the workers in the order of their creation is one of their schedules.
use my_ceph.Common.{
  ℕ, ◌+◌, ◌≡◌, refl, ap, ◌∙◌, arith, List, [], ◌∷◌, ◌++◌, Outcome, ok, fault, out_of_fuel, ok-inj,
  >>=-eq-ok, ◌>>=◌, ℤ, pos,
}
use my_ceph.Mapper.Memory.{Mem, write}
use my_ceph.Mapper.Turn.{Attempt}
use my_ceph.Mapper.Loops.{Fuel, place}
use my_ceph.Workers.{
  FirstnInfo, Globals, worker_attempt, worker_place, do_work1, do_work2, do_work3, run_workers,
}
use my_ceph.Workers.Steps.{
  Phase, descends, compares, notes, writes, finished, worker_step, Worker, worker1, worker2,
  worker3, worker_number, System, phase_of, with_phase, counted, system_step, system_run, at_start,
  seen,
}
use my_ceph.Workers.Progress.{done_next}
use my_ceph.Workers.Alone.{Reaches, here, step, place-Reaches}

-- The state with worker `w` at another phase, over other arrays.
abbrev at : Worker → Phase → Mem → System → System
at w p mem s = with_phase w p (record s { mem = mem })

counted_same : (p : Phase) (n : ℕ) → done_next p ≡ 0 → counted p n ≡ n
unfolding counted
counted_same (descends b ft fl item) n z = refl
counted_same (compares b ty r ft fl item) n z = refl
counted_same (notes b ty r ft fl item) n z = refl
counted_same (writes item) n z = absurd (omega arith)
counted_same finished n z = absurd (omega arith)

module _ (fuel : Fuel) (g : Globals) (f : FirstnInfo) where
  attempt_at : Worker → ℕ → Attempt
  attempt_at w n =
      worker_attempt fuel g (record f { outpos = n }) (worker_number w) (worker_number w)

  step_alone :
      (w : Worker) (p : Phase) (mem : Mem) (s : System) (q : Phase) (mem' : Mem)
      → worker_step (attempt_at w s.outpos) p mem ≡ ok (q, mem')
      → system_step fuel g f w (at w p mem s)
        ≡ ok (at w q mem' (record s { outpos = counted p s.outpos }))
  unfolding system_step attempt_at worker_number phase_of with_phase
  step_alone worker1 p mem s q mem' e = rw e refl
  step_alone worker2 p mem s q mem' e = rw e refl
  step_alone worker3 p mem s q mem' e = rw e refl

  -- What worker `w` does alone.
  reached :
      (w : Worker) (s : System) {u t : Phase × Mem}
      → Reaches (attempt_at w s.outpos) u t
      → (ws : List Worker) × (system_run fuel g f ws (at w u.0 u.1 s) ≡ ok (at w t.0 t.1 s))
  unfolding system_run
  reached w s here = ([], refl)
  reached w s (step {p = p} {mem = mem} {s = u} z e r) =
      let (ws, k) = reached w s r in
      (w ∷ ws, rw (step_alone w p mem s u.0 u.1 e, counted_same p s.outpos z) k)

pub system_run-append :
    (fuel : Fuel) (g : Globals) (f : FirstnInfo) (ws vs : List Worker) (s t : System)
    → system_run fuel g f ws s ≡ ok t
    → system_run fuel g f (ws ++ vs) s ≡ system_run fuel g f vs t
unfolding system_run
system_run-append fuel g f [] vs s t h = ap (system_run fuel g f vs) (ok-inj h)
system_run-append fuel g f (w ∷ ws) vs s t h =
    let (u, eu, k) = >>=-eq-ok (system_step fuel g f w s) _ h in
    rw eu (system_run-append fuel g f ws vs u t k)

-- A whole worker, from its start to its end.
worker_alone :
    (fuel : Fuel) (g : Globals) (f : FirstnInfo) (w : Worker) (s : System) (mem mem' : Mem)
    → worker_place fuel g (record f { outpos = s.outpos }) (worker_number w) (worker_number w) mem
      ≡ ok mem'
    → (ws : List Worker) × (system_run fuel g f ws (at w (descends f.bucket 0 0 (pos 0)) mem s)
        ≡ ok (at w finished mem' (record s { outpos = s.outpos + 1 })))
unfolding worker_place attempt_at worker_attempt system_run worker_step counted
worker_alone fuel g f w s mem mem' h =
    let ((taken, item, between), el, k) =
      >>=-eq-ok (place fuel.outer fuel.inner (attempt_at fuel g f w s.outpos) 0 (pos 0) mem) _ h in
    let (ws, e) = reached fuel g f w s (
      place-Reaches (attempt_at fuel g f w s.outpos) fuel.outer fuel.inner 0 (pos 0) mem
        (taken, item, between) el) in
    (ws ++ (w ∷ []), system_run-append fuel g f ws (w ∷ []) _ _ e ∙ last item between k)
  where
    last :
        (item : ℤ) (between : Mem)
        → write between f.out (worker_number w) item ≡ ok mem'
        → system_run fuel g f (w ∷ []) (at w (writes item) between s)
          ≡ ok (at w finished mem' (record s { outpos = s.outpos + 1 }))
    last item between k =
        rw (step_alone fuel g f w (writes item) between s finished mem' (rw k refl)) refl

-- A run whose value goes on to `next`.
pub mapped {ℓ κ μ} :
    {A : Type ℓ} {B : Type κ} {C : Type μ} (m : Outcome A) (h : A → B) (next : B → Outcome C)
    {r : C}
    → ((m >>= λ a. ok (h a)) >>= next) ≡ ok r
    → (a : A) × (m ≡ ok a) × (next (h a) ≡ ok r)
mapped (ok a) h next e = (a, refl, e)
mapped fault h next e = absurd (cc)
mapped out_of_fuel h next e = absurd (cc)

-- What the three workers, run from their start to their end in the order of their creation, leave in
-- the arrays and in the structure is what one of their schedules leaves, with all three done.
pub run_workers-IsScheduled :
    (fuel : Fuel) (g : Globals) (f f' : FirstnInfo) (mem mem' : Mem)
    → run_workers fuel g f mem ≡ ok (f', mem')
    → (ws : List Worker) × (s : System) × (system_run fuel g f ws (at_start f mem) ≡ ok s)
      × (seen f s ≡ f')
      × (s.mem ≡ mem')
      × ((w : Worker) → phase_of w s ≡ finished)
unfolding run_workers do_work1 do_work2 do_work3 worker_number with_phase phase_of at_start
run_workers-IsScheduled fuel g f f' mem mem' h =
    let f1 = record f { outpos = f.outpos + 1 } in
    let f2 = record f { outpos = f.outpos + 1 + 1 } in
    let (m1, e1, h1) = mapped (worker_place fuel g f 0 0 mem) (λ m. (f1, m)) _ h in
    let (m2, e2, h2) = mapped (worker_place fuel g f1 1 1 m1) (λ m. (f2, m)) _ h1 in
    let (m3, e3, h3) = >>=-eq-ok (worker_place fuel g f2 2 2 m2) _ h2 in
    let s0 = at_start f mem in
    let (ws1, k1) = worker_alone fuel g f worker1 s0 mem m1 e1 in
    let s1 = at worker1 finished m1 (record s0 { outpos = f.outpos + 1 }) in
    let (ws2, k2) = worker_alone fuel g f worker2 s1 m1 m2 e2 in
    let s2 = at worker2 finished m2 (record s1 { outpos = f.outpos + 1 + 1 }) in
    let (ws3, k3) = worker_alone fuel g f worker3 s2 m2 m3 e3 in
    let s3 = at worker3 finished m3 (record s2 { outpos = f.outpos + 1 + 1 + 1 }) in
    (
      ws1 ++ (ws2 ++ ws3),
      s3,
      system_run-append fuel g f ws1 (ws2 ++ ws3) s0 s1 k1
          ∙ system_run-append fuel g f ws2 ws3 s1 s2 k2
          ∙ k3,
      ap (λ (r : FirstnInfo × Mem). r.0) (ok-inj h3),
      ap (λ (r : FirstnInfo × Mem). r.1) (ok-inj h3),
      λ w. elim w as (λ u. phase_of u s3 ≡ finished) [
        | worker1 ↦ refl
        | worker2 ↦ refl
        | worker3 ↦ refl
      ],
    )
