-- ===== src/ThreadPool/Crew/Start.antt =====
-- The threads that the manager starts, against the slots.
use my_ceph.Common.{
  some-inj, ℕ, suc, ◌+◌, ◌≡◌, ◌≢◌, ◌==◌, refl, arith, if◌then◌else◌, Bool-cases, true, false, inl,
  inr, List, [], ◌∷◌, length, get_elem?, some,
}
use my_ceph.ThreadPool.{Task}
use my_ceph.ThreadPool.Threads.{count_live}
use my_ceph.ThreadPool.Crew.{at_head, Thread, new_threads}
use my_ceph.ThreadPool.Crew.Sums.{sum_of}
use my_ceph.ThreadPool.Crew.Count.{alive, leaving, running, held, alive_as, is_id}

-- Threads at the head of the loop, one for each number that is new in the slots.
pub record IsStarted (ids ids' : List ℕ) (ts : List Thread) : Type 0 where
  pub slots : count_live ids + sum_of alive ts ≡ count_live ids'
  pub owned :
      (x : ℕ) → x ≢ 0 → sum_of (is_id x) ids + sum_of (alive_as x) ts ≡ sum_of (is_id x) ids'
  pub nonzero : sum_of (alive_as 0) ts ≡ 0
  pub idle : sum_of running ts ≡ 0
  pub staying : sum_of leaving ts ≡ 0
  pub empty : (p : Task → ℕ) → sum_of (held p) ts ≡ 0

no_threads : IsStarted [] [] []
unfolding sum_of count_live
no_threads = record {
  slots = refl;
  owned = λ x nz. refl;
  nonzero = refl;
  idle = refl;
  staying = refl;
  empty = λ p. refl;
}

same_slot :
    (id : ℕ) (ids ids' : List ℕ) (ts : List Thread)
    → IsStarted ids ids' ts
    → IsStarted (id ∷ ids) (id ∷ ids') ts
unfolding sum_of count_live
same_slot id ids ids' ts s = record {
  slots = omega (arith, s.slots);
  owned = λ x nz. omega (arith, s.owned x nz);
  nonzero = s.nonzero;
  idle = s.idle;
  staying = s.staying;
  empty = s.empty;
}

new_slot :
    (id' : ℕ) (ids ids' : List ℕ) (ts : List Thread)
    → id' ≢ 0
    → IsStarted ids ids' ts
    → IsStarted (0 ∷ ids) (id' ∷ ids') (record { id = id'; stage = at_head } ∷ ts)
unfolding sum_of count_live
new_slot id' ids ids' ts nz s = record {
  slots = count nz s.slots;
  owned = λ x xnz. own x xnz (s.owned x xnz);
  nonzero = none_zero nz s.nonzero;
  idle = omega (arith, s.idle);
  staying = omega (arith, s.staying);
  empty = λ p. omega (arith, s.empty p);
}
  where
    count :
        id' ≢ 0
        → count_live ids + sum_of alive ts ≡ count_live ids'
        → 0 + count_live ids + (1 + sum_of alive ts) ≡ (if id' == 0 then 0 else 1) + count_live ids'
    count h e = ground arith

    own :
        (x : ℕ)
        → x ≢ 0
        → sum_of (is_id x) ids + sum_of (alive_as x) ts ≡ sum_of (is_id x) ids'
        → (if 0 == x then 1 else 0)
            + sum_of (is_id x) ids
            + ((if id' == x then 1 else 0) + sum_of (alive_as x) ts)
          ≡ (if id' == x then 1 else 0) + sum_of (is_id x) ids'
    own x h e = ground arith

    none_zero :
        id' ≢ 0
        → sum_of (alive_as 0) ts ≡ 0
        → (if id' == 0 then 1 else 0) + sum_of (alive_as 0) ts ≡ 0
    none_zero h e = ground arith

is_zero : (n : ℕ) → (n == 0) ≡ true → n ≡ 0
is_zero n h = ground arith

not_zero : (n : ℕ) → (n == 0) ≡ false → n ≢ 0
not_zero n h = λ e. absurd (ground arith)

-- Whatever the slots held before that was not free, they hold behind.
pub new_threads-IsStarted :
    (ids ids' : List ℕ)
    → length ids' ≡ length ids
    → ((j id : ℕ) → id ≢ 0 → get_elem? ids j ≡ some id → get_elem? ids' j ≡ some id)
    → IsStarted ids ids' (new_threads ids ids')
unfolding new_threads
new_threads-IsStarted [] [] len kept = no_threads
new_threads-IsStarted [] (id' ∷ ids') len kept = absurd (omega (arith, len))
new_threads-IsStarted (id ∷ ids) [] len kept = absurd (omega (arith, len))
new_threads-IsStarted (id ∷ ids) (id' ∷ ids') len kept =
    let rest =
      new_threads-IsStarted ids ids' (omega (arith, len))
        (λ j other nz e. kept (suc j) other nz e) in
    elim (Bool-cases (id == 0)) [
      | inl free ↦ elim (Bool-cases (id' == 0)) [
        | inl still ↦
            rw (is_zero id free, is_zero id' still)
              (same_slot 0 ids ids' (new_threads ids ids') rest)
        | inr filled ↦
            rw (is_zero id free, filled)
              (new_slot id' ids ids' (new_threads ids ids') (not_zero id' filled) rest)
      ]
      | inr held ↦
          let e = some-inj (kept 0 id (not_zero id held) refl) in
          rw (e, held) (same_slot id ids ids' (new_threads ids ids') rest)
    ]
