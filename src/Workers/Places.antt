-- ===== src/Workers/Places.antt =====
-- The places of the workers in the shared state.
use my_ceph.Common.{ℕ, ◌+◌, ◌<◌, ◌≡◌, ◌≢◌, ◌⊎◌, refl, arith, inl, inr}
use my_ceph.Mapper.Memory.{Mem}
use my_ceph.Workers.Steps.{
  Phase, Worker, worker1, worker2, worker3, worker_number, System, phase_of, with_phase,
}
use my_ceph.Workers.Progress.{done}

pub number_lt : (w : Worker) → worker_number w < 3
unfolding worker_number
number_lt worker1 = omega arith
number_lt worker2 = omega arith
number_lt worker3 = omega arith

pub phase_of-with_phase : (w : Worker) (p : Phase) (s : System) → phase_of w (with_phase w p s) ≡ p
unfolding phase_of with_phase
phase_of-with_phase worker1 p s = refl
phase_of-with_phase worker2 p s = refl
phase_of-with_phase worker3 p s = refl

pub phase_of-with_phase_other :
    (v w : Worker) (p : Phase) (s : System)
    → worker_number v ≢ worker_number w
    → phase_of v (with_phase w p s) ≡ phase_of v s
unfolding phase_of with_phase worker_number
phase_of-with_phase_other worker1 worker1 p s ne = absurd (ne refl)
phase_of-with_phase_other worker1 worker2 p s ne = refl
phase_of-with_phase_other worker1 worker3 p s ne = refl
phase_of-with_phase_other worker2 worker1 p s ne = refl
phase_of-with_phase_other worker2 worker2 p s ne = absurd (ne refl)
phase_of-with_phase_other worker2 worker3 p s ne = refl
phase_of-with_phase_other worker3 worker1 p s ne = refl
phase_of-with_phase_other worker3 worker2 p s ne = refl
phase_of-with_phase_other worker3 worker3 p s ne = absurd (ne refl)

pub mem-with_phase : (w : Worker) (p : Phase) (s : System) → (with_phase w p s).mem ≡ s.mem
unfolding with_phase
mem-with_phase worker1 p s = refl
mem-with_phase worker2 p s = refl
mem-with_phase worker3 p s = refl

pub outpos-with_phase : (w : Worker) (p : Phase) (s : System) → (with_phase w p s).outpos ≡ s.outpos
unfolding with_phase
outpos-with_phase worker1 p s = refl
outpos-with_phase worker2 p s = refl
outpos-with_phase worker3 p s = refl

-- How many workers are done.
abbrev pub all_done : System → ℕ
all_done s = done s.phase1 + done s.phase2 + done s.phase3

pub all_done-with_phase :
    (w : Worker) (p : Phase) (s : System)
    → all_done (with_phase w p s) + done (phase_of w s) ≡ all_done s + done p
unfolding with_phase phase_of
all_done-with_phase worker1 p s = omega arith
all_done-with_phase worker2 p s = omega arith
all_done-with_phase worker3 p s = omega arith

pub phase_of_shared :
    (v : Worker) (s : System) (n : ℕ) (mem : Mem)
    → phase_of v (record s { outpos = n; mem = mem }) ≡ phase_of v s
unfolding phase_of
phase_of_shared worker1 s n mem = refl
phase_of_shared worker2 s n mem = refl
phase_of_shared worker3 s n mem = refl

-- Two workers are the same, or have different numbers.
pub same_or_other : (v w : Worker) → (v ≡ w) ⊎ (worker_number v ≢ worker_number w)
unfolding worker_number
same_or_other worker1 worker1 = inl refl
same_or_other worker1 worker2 = inr (omega arith)
same_or_other worker1 worker3 = inr (omega arith)
same_or_other worker2 worker1 = inr (omega arith)
same_or_other worker2 worker2 = inl refl
same_or_other worker2 worker3 = inr (omega arith)
same_or_other worker3 worker1 = inr (omega arith)
same_or_other worker3 worker2 = inr (omega arith)
same_or_other worker3 worker3 = inl refl
