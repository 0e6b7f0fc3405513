-- ===== src/Workers/Progress.antt =====
-- How near a worker is to its end, and what a step that moves on is.
use native.Mathlib.Nat.{mul-le-mul_right}
use my_ceph.Common.{u32, ℕ, suc, ◌+◌, ◌-◌, ◌*◌, ◌≤◌, ◌<◌, ◌≡◌, ◌≢◌, refl, ◌∙◌, subst, arith, List}
use my_ceph.Common.{ℤ, pos, negsuc, Outcome, ok, ◌>>=◌}
use my_ceph.CrushMap.{CrushMap, CrushBucketStraw2}
use my_ceph.Mapper.Memory.{Mem, Pointer, read, write, read-write_other}
use my_ceph.Mapper.Memory.Shape.{shape, Room}
use my_ceph.Mapper.Turn.{
  Attempt, Turn, descend_into, retry_bucket, retry_descent, skip_rep, take_item,
}
use my_ceph.Mapper.Turn.Accept.{mem_of}
use my_ceph.Mapper.Turn.Total.{IsNode, IsSetUp, Bounded, Ends, CountsFit}
use my_ceph.Workers.Steps.{Phase, descends, compares, notes, writes, finished, go_on}

-- A worker that looks for a device stands at a bucket of the hierarchy, and holds a device.
abbrev pub IsPhase : CrushMap → (CrushBucketStraw2 → ℕ) → ℕ → Phase → Type 0
IsPhase m height leaf (descends b ft fl item) = IsNode m height b
IsPhase m height leaf (compares b ty r ft fl (pos n)) = IsNode m height b × (ty ≡ 0)
IsPhase m height leaf (compares b ty r ft fl (negsuc n)) = ⊥
IsPhase m height leaf (notes b ty r ft fl (pos n)) = IsNode m height b × (ty ≡ 0) × (leaf ≢ 0)
IsPhase m height leaf (notes b ty r ft fl (negsuc n)) = ⊥
IsPhase m height leaf (writes item) = Unit {0}
IsPhase m height leaf finished = Unit {0}

-- How many more turns there can be.
abbrev pub turns_left :
    (CrushBucketStraw2 → ℕ) → ℕ → ℕ → CrushBucketStraw2 → CrushBucketStraw2 → ℕ → ℕ → ℕ
turns_left height tries retries top b ft fl =
    (tries - ft) * (retries + height top + 1) + (retries - fl + height b)

-- How many more steps there can be.
abbrev pub steps_left : (CrushBucketStraw2 → ℕ) → ℕ → ℕ → CrushBucketStraw2 → Phase → ℕ
steps_left height tries retries top (descends b ft fl item) =
    3 * turns_left height tries retries top b ft fl + 4
steps_left height tries retries top (compares b ty r ft fl item) =
    3 * turns_left height tries retries top b ft fl + 3
steps_left height tries retries top (notes b ty r ft fl item) =
    3 * turns_left height tries retries top b ft fl + 2
steps_left height tries retries top (writes item) = 1
steps_left height tries retries top finished = 0

-- How many workers at a phase are done, and are done behind the next step.
abbrev pub done : Phase → ℕ
done (descends b ft fl item) = 0
done (compares b ty r ft fl item) = 0
done (notes b ty r ft fl item) = 0
done (writes item) = 0
done finished = 1

abbrev pub done_next : Phase → ℕ
done_next (descends b ft fl item) = 0
done_next (compares b ty r ft fl item) = 0
done_next (notes b ty r ft fl item) = 0
done_next (writes item) = 1
done_next finished = 1

-- The counters at a phase have grown by no more than the tries and the local retries.
abbrev pub Counts : ℕ → ℕ → Phase → Type 0
Counts tries retries (descends b ft fl item) = (ft ≤ tries + fl) × (fl ≤ retries)
Counts tries retries (compares b ty r ft fl item) = (ft ≤ tries + fl) × (fl ≤ retries)
Counts tries retries (notes b ty r ft fl item) = (ft ≤ tries + fl) × (fl ≤ retries)
Counts tries retries (writes item) = Unit {0}
Counts tries retries finished = Unit {0}

abbrev pub InCounts : Attempt → ℕ → ℕ → Type 0
InCounts a ft fl =
    CountsFit a.tries a.local_retries × ((ft ≤ a.tries + fl) × (fl ≤ a.local_retries))

-- What an attempt of a worker needs.
pub record IsWorker (height : CrushBucketStraw2 → ℕ) (sh : List ℕ) (a : Attempt) : Type 0 where
  pub set_up : IsSetUp height sh a
  pub top : IsNode a.map height a.bucket
  pub devices : a.type ≡ 0
  pub room : Room sh a.out (suc a.outpos)

-- A step that came to its end; where the counters do not wrap, by `c`, it is nearer to the end.
pub record Moves (height : CrushBucketStraw2 → ℕ) (sh : List ℕ) (a : Attempt) (c : Type 0) (d : ℕ)
    (mem : Mem) (bound : ℕ) (m : Outcome (Phase × Mem)) : Type 0 where
  pub phase : Phase
  pub mem' : Mem
  pub returned : m ≡ ok (phase, mem')
  pub valid : IsPhase a.map height a.recurse_to_leaf phase
  pub shaped : shape mem' ≡ sh
  pub over : done phase ≡ d
  pub nearer :
      c
      → Counts a.tries a.local_retries phase
        × (steps_left height a.tries a.local_retries a.bucket phase < bound)
  pub others : (p : Pointer) (i : ℕ) → i ≢ a.outpos → read mem' p i ≡ read mem p i

module _ {height : CrushBucketStraw2 → ℕ} {sh : List ℕ} (a : Attempt)
    (w : IsWorker height sh a) where
  abbrev left : Phase → ℕ
  left p = steps_left height a.tries a.local_retries a.bucket p

  abbrev turns : CrushBucketStraw2 → ℕ → ℕ → ℕ
  turns b ft fl = turns_left height a.tries a.local_retries a.bucket b ft fl

  -- A step that does not touch the arrays.
  pub still :
      {c : Type 0} (mem : Mem) (bound : ℕ) (p : Phase)
      → IsPhase a.map height a.recurse_to_leaf p
      → shape mem ≡ sh
      → (c → Counts a.tries a.local_retries p × (left p < bound))
      → Moves height sh a c (done p) mem bound (ok (p, mem))
  still mem bound p v e lt = record {
    phase = p;
    mem' = mem;
    returned = refl;
    valid = v;
    shaped = e;
    over = refl;
    nearer = lt;
    others = λ q i ne. refl;
  }

  retried_lt :
      (K n ft l h : ℕ) (r : ℕ)
      → l + 1 ≤ r
      → 3 * ((n - (ft + 1)) * K + (r - (l + 1) + h)) + 4 < 3 * ((n - ft) * K + (r - l + h)) + 2
  retried_lt K n ft l h r le =
      let k = mul-le-mul_right {m = n - (ft + 1)} {n = n - ft} K (omega arith) in omega (arith, k)

  anew_lt :
      (n ft fl r h top : ℕ)
      → ft + 1 < n
      → 3 * ((n - (ft + 1)) * (r + top + 1) + (r - 0 + top)) + 4
        < 3 * ((n - ft) * (r + top + 1) + (r - fl + h)) + 2
  anew_lt n ft fl r h top lt =
      let k = mul-le-mul_right {m = suc (n - (ft + 1))} {n = n - ft} (r + top + 1) (omega arith) in
      omega (arith, k)

  -- Behind a turn that is bounded.
  pub go_on-Moves :
      (b : CrushBucketStraw2) (ft fl : ℕ) (t : Turn)
      → IsNode a.map height b
      → shape (mem_of t) ≡ sh
      → Bounded height a b ft fl t
      → Moves height sh a
          (InCounts a ft fl)
          0
          (mem_of t)
          (3 * turns b ft fl + 2)
          (ok (go_on a b ft fl t))
  unfolding go_on
  go_on-Moves b ft fl (descend_into c item mem) node e (below, lt) =
      still mem _ (descends c ft fl item) below e (λ (fit, (hi, lo)). ((hi, lo), omega arith))
  go_on-Moves b ft fl (retry_bucket item mem) node e le =
      still mem _ (descends b (u32 (ft + 1)) (u32 (fl + 1)) item) node e (λ (fit, (hi, lo)).
        let up : u32 (ft + 1) ≡ ft + 1 = omega arith in
        let up' : u32 (fl + 1) ≡ fl + 1 = omega arith in
        (
          (omega (arith, up, up'), le),
          rw (up, up')
              (retried_lt (a.local_retries + height a.bucket + 1) a.tries ft fl (height b)
                a.local_retries (omega (arith, le, up'))),
        ))
  go_on-Moves b ft fl (retry_descent item mem) node e lt =
      still mem _ (descends a.bucket (u32 (ft + 1)) 0 item) w.top e (λ (fit, (hi, lo)).
        let up : u32 (ft + 1) ≡ ft + 1 = omega arith in
        (
          (omega (arith, lt), omega arith),
          rw up (
              anew_lt a.tries ft fl a.local_retries (height b) (height a.bucket)
                (omega (arith, lt, up))),
        ))
  go_on-Moves b ft fl (skip_rep item mem) node e bounded =
      still mem _ (writes item) tt e (λ c. (tt, omega arith))
  go_on-Moves b ft fl (take_item item mem) node e bounded =
      still mem _ (writes item) tt e (λ c. (tt, omega arith))

  -- The same behind a turn that may have failed.
  pub go_on_ended :
      (b : CrushBucketStraw2) (ft fl bound : ℕ) (mem : Mem) (m : Outcome Turn)
      → IsNode a.map height b
      → 3 * turns b ft fl + 2 ≤ bound
      → ((t : Turn) → m ≡ ok t → mem_of t ≡ mem)
      → Ends height sh a b ft fl m
      → Moves height sh a (InCounts a ft fl) 0 mem bound (do t ← m; ok (go_on a b ft fl t))
  go_on_ended b ft fl bound mem m node le same e =
      let moved = go_on-Moves b ft fl e.result node e.shaped e.bounded in
      rw e.returned (
        subst (λ k. Moves height sh a (InCounts a ft fl) 0 k bound (ok (go_on a b ft fl e.result)))
          (same e.result e.returned)
          (record {
            phase = moved.phase;
            mem' = moved.mem';
            returned = moved.returned;
            valid = moved.valid;
            shaped = moved.shaped;
            over = moved.over;
            nearer = λ c. ((moved.nearer c).0, omega (arith, (moved.nearer c).1));
            others = moved.others;
          }))

  pub weaken :
      {c : Type 0} {d : ℕ} {mem : Mem} {bound bound' : ℕ} {m : Outcome (Phase × Mem)}
      → bound ≤ bound'
      → Moves height sh a c d mem bound m
      → Moves height sh a c d mem bound' m
  weaken le moved = record {
    phase = moved.phase;
    mem' = moved.mem';
    returned = moved.returned;
    valid = moved.valid;
    shaped = moved.shaped;
    over = moved.over;
    nearer = λ c. ((moved.nearer c).0, omega (arith, (moved.nearer c).1));
    others = moved.others;
  }

  -- The same behind a write of the own entry.
  pub behind_write :
      {c : Type 0} {d : ℕ} {mem mem1 : Mem} {bound : ℕ} {m : Outcome (Phase × Mem)} (q : Pointer)
      (v : ℤ)
      → write mem q a.outpos v ≡ ok mem1
      → Moves height sh a c d mem1 bound m
      → Moves height sh a c d mem bound m
  behind_write {mem = mem} {mem1 = mem1} q v h moved = record {
    phase = moved.phase;
    mem' = moved.mem';
    returned = moved.returned;
    valid = moved.valid;
    shaped = moved.shaped;
    over = moved.over;
    nearer = moved.nearer;
    others = λ p i ne. moved.others p i ne ∙ read-write_other mem q i a.outpos v h ne p;
  }
