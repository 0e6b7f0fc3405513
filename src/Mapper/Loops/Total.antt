-- ===== src/Mapper/Loops/Total.antt =====
-- With enough fuel the loops of one replica end: a descent makes at most as many turns as the
-- start bucket is high and local retries are left, and a replica at most `tries` descents.
use my_ceph.Common.{
  u32, ℕ, zero, suc, ◌+◌, ◌-◌, ◌≤◌, ◌<◌, ◌≡◌, refl, arith, Bool, true, false, List, ℤ, Outcome, ok,
}
use my_ceph.CrushMap.{CrushBucketStraw2}
use my_ceph.Mapper.Memory.{Mem}
use my_ceph.Mapper.Memory.Shape.{shape}
use my_ceph.Mapper.Turn.{
  Attempt, Turn, descend_into, retry_bucket, retry_descent, skip_rep, take_item,
}
use my_ceph.Mapper.Turn.Accept.{mem_of}
use my_ceph.Mapper.Turn.Total.{IsNode, IsSetUp, Bounded, CountsFit}
use my_ceph.Mapper.Turn.Returns.{turn-Ends}
use my_ceph.Mapper.Loops.{Descent, restart, given_up, chosen, try_bucket, place}
use my_ceph.Mapper.Loops.Accept.{end_mem}

-- A new descent starts with more failures than the last, and fewer than the tries.
abbrev Restarts : ℕ → ℕ → Descent → Type 0
Restarts ft tries (restart ft' item mem) = (ft < ft') × (ft' < tries)
Restarts ft tries (given_up item mem) = Unit {0}
Restarts ft tries (chosen item mem) = Unit {0}

Restarts-mono :
    (ft ft' tries : ℕ) (d : Descent) → ft ≤ ft' → Restarts ft' tries d → Restarts ft tries d
Restarts-mono ft ft' tries (restart k item mem) le r = omega arith
Restarts-mono ft ft' tries (given_up item mem) le r = tt
Restarts-mono ft ft' tries (chosen item mem) le r = tt

-- A descent that came to its end.
record DescentEnds (sh : List ℕ) (tries ft : ℕ) (m : Outcome Descent) : Type 0 where
  result : Descent
  returned : m ≡ ok result
  shaped : shape (end_mem result) ≡ sh
  restarts : Restarts ft tries result

module _ {height : CrushBucketStraw2 → ℕ} {sh : List ℕ} (a : Attempt) (s : IsSetUp height sh a)
    (fit : CountsFit a.tries a.local_retries) where
  try_bucket_total :
      (fuel : ℕ) (b : CrushBucketStraw2) (ft fl : ℕ) (item : ℤ) (mem : Mem)
      → ft ≤ a.tries + fl
      → fl ≤ a.local_retries
      → a.local_retries - fl + height b < fuel
      → IsNode a.map height b
      → shape mem ≡ sh
      → DescentEnds sh a.tries ft (try_bucket fuel a b ft fl item mem)
  unfolding try_bucket
  try_bucket_total zero b ft fl item mem hi lo lt node e = absurd (omega arith)
  try_bucket_total (suc fuel) b ft fl item mem hi lo lt node e =
      let t = turn-Ends a s b ft fl item mem node e in
      rw t.returned (after (try_bucket_total fuel) t.result t.shaped t.bounded)
    where
      Rest : Type 0
      Rest =
          (b : CrushBucketStraw2) (ft fl : ℕ) (item : ℤ) (mem : Mem)
          → ft ≤ a.tries + fl
          → fl ≤ a.local_retries
          → a.local_retries - fl + height b < fuel
          → IsNode a.map height b
          → shape mem ≡ sh
          → DescentEnds sh a.tries ft (try_bucket fuel a b ft fl item mem)

      after :
          Rest
          → (t : Turn) → shape (mem_of t) ≡ sh
          → Bounded height a b ft fl t
          → DescentEnds sh a.tries ft (elim t [
            | descend_into b' item' mem' ↦ try_bucket fuel a b' ft fl item' mem'
            | retry_bucket item' mem' ↦ try_bucket fuel a b (u32 (ft + 1)) (u32 (fl + 1)) item' mem'
            | retry_descent item' mem' ↦ ok (restart (u32 (ft + 1)) item' mem')
            | skip_rep item' mem' ↦ ok (given_up item' mem')
            | take_item item' mem' ↦ ok (chosen item' mem')
          ])
      after rest (descend_into c item' mem') e (node', lower) =
          rest c ft fl item' mem' hi lo (omega arith) node' e
      after rest (retry_bucket item' mem') e le =
          let d =
            rest b (u32 (ft + 1)) (u32 (fl + 1)) item' mem' (omega arith) le (omega arith) node e in
          record {
            result = d.result;
            returned = d.returned;
            shaped = d.shaped;
            restarts = Restarts-mono ft (u32 (ft + 1)) a.tries d.result (omega arith) d.restarts;
          }
      after rest (retry_descent item' mem') e le = record {
        result = restart (u32 (ft + 1)) item' mem';
        returned = refl;
        shaped = e;
        restarts = (omega arith, le);
      }
      after rest (skip_rep item' mem') e u = record {
        result = given_up item' mem';
        returned = refl;
        shaped = e;
        restarts = tt;
      }
      after rest (take_item item' mem') e u = record {
        result = chosen item' mem';
        returned = refl;
        shaped = e;
        restarts = tt;
      }

  -- A replica is placed or given up, with arrays of the same lengths.
  pub place_total :
      (outer inner ft : ℕ) (item : ℤ) (mem : Mem)
      → ft ≤ a.tries
      → a.tries - ft < outer
      → a.local_retries + height a.bucket < inner
      → IsNode a.map height a.bucket
      → shape mem ≡ sh
      → (p : Bool) × (item' : ℤ) × (mem' : Mem) × (place outer inner a ft item mem
          ≡ ok (p, item', mem'))
        × (shape mem' ≡ sh)
  unfolding place
  place_total zero inner ft item mem hi lo li node e = absurd (omega arith)
  place_total (suc outer) inner ft item mem hi lo li node e =
      let d =
        try_bucket_total inner a.bucket ft 0 item mem (omega arith) (omega arith) (omega arith) node
          e in
      rw d.returned (after (place_total outer inner) d.result d.shaped d.restarts)
    where
      Rest : Type 0
      Rest =
          (ft : ℕ) (item : ℤ) (mem : Mem)
          → ft ≤ a.tries
          → a.tries - ft < outer
          → a.local_retries + height a.bucket < inner
          → IsNode a.map height a.bucket
          → shape mem ≡ sh
          → (p : Bool) × (item' : ℤ) × (mem' : Mem) × (place outer inner a ft item mem
              ≡ ok (p, item', mem'))
            × (shape mem' ≡ sh)

      after :
          Rest
          → (d : Descent) → shape (end_mem d) ≡ sh
          → Restarts ft a.tries d
          → (p : Bool) × (item' : ℤ) × (mem' : Mem) × ((elim d [
            | restart ft' i m ↦ place outer inner a ft' i m
            | given_up i m ↦ ok (false, i, m)
            | chosen i m ↦ ok (true, i, m)
          ])
              ≡ ok (p, item', mem'))
            × (shape mem' ≡ sh)
      after rest (restart ft' i m) e (more, fewer) =
          rest ft' i m (omega arith) (omega arith) li node e
      after rest (given_up i m) e u = (false, i, m, refl, e)
      after rest (chosen i m) e u = (true, i, m, refl, e)
