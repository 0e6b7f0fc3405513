-- ===== src/Workers.antt =====
-- CRUSH_Research/main.cpp: the workers that place one replica each. `do_work1`, `do_work2` and
-- `do_work3` differ in two constants; they share `struct firstn_info`, and `do_work` also shares the
-- global position. Their loops are those of `crush_choose_firstn`, which `Mapper.Loops` models. Here
-- a worker runs from its start to its end, in the order in which the threads are created;
-- `Workers.Steps` has it step by step.

pub mod Sequence
pub mod Objects
pub mod Steps
pub mod Progress
pub mod Moves
pub mod Places
pub mod Schedule
pub mod Reached
pub mod Waits
pub mod First
pub mod Phases
pub mod Confluent
pub mod Whole
pub mod Alone
pub mod Order
use my_ceph.Common.{
  ℕ, zero, suc, ◌+◌, ◌-◌, ◌==◌, if◌then◌else◌, List, [], ◌∷◌, replicate, get_elem?, Option, none,
  some, u32, Outcome, ok, fault, out_of_fuel, from_option, ◌>>=◌,
}
use my_ceph.Common.{ℤ, pos}
use my_ceph.CrushMap.{CrushMap, CrushBucketStraw2, CrushChooseArg}
use my_ceph.Mapper.{Firstn, crush_choose_firstn}
use my_ceph.Mapper.Memory.{Mem, Pointer, write}
use my_ceph.Mapper.Turn.{Attempt}
use my_ceph.Mapper.Loops.{Fuel, place}
use my_ceph.Build.{osd_sum}

-- The arguments and the state of the workers, less the work area, which they only hand on.
-- `parent_r` is a pointer to an `int`, with what it points at.
pub record FirstnInfo : Type 0 where
  pub map : CrushMap
  pub bucket : CrushBucketStraw2
  pub weight : List ℕ
  pub weight_max : ℕ
  pub x : ℕ
  pub numrep : ℕ
  pub type : ℕ
  pub out : Pointer
  pub outpos : ℕ
  pub out_size : ℕ
  pub tries : ℕ
  pub recurse_tries : ℕ
  pub local_retries : ℕ
  pub local_fallback_retries : ℕ
  pub recurse_to_leaf : ℕ
  pub vary_r : ℕ
  pub stable : ℕ
  pub out2 : Pointer
  pub parent_r : Option ℕ
  pub choose_args : Option (List CrushChooseArg)

-- The globals of main.cpp that the workers read: the weights of the devices, their number, and
-- `pthread_outpos`.
pub record Globals : Type 0 where
  pub weight : List ℕ
  pub weight_max : ℕ
  pub pthread_outpos : ℕ

-- The arguments of the recursive call that looks for a device below bucket `b`. They take the
-- weights from the globals.
unfoldable pub worker_leaf : Globals → FirstnInfo → CrushBucketStraw2 → ℕ → Firstn
worker_leaf g f b sub_r = record {
  map = f.map;
  bucket = b;
  weight = g.weight;
  weight_max = g.weight_max;
  x = f.x;
  numrep = if f.stable == 0 then f.outpos + 1 else 1;
  type = 0;
  out = f.out2;
  outpos = f.outpos;
  out_size = f.out_size;
  tries = f.recurse_tries;
  recurse_tries = 0;
  local_retries = f.local_retries;
  local_fallback_retries = f.local_fallback_retries;
  recurse_to_leaf = 0;
  vary_r = f.vary_r;
  stable = f.stable;
  out2 = none;
  parent_r = sub_r;
  choose_args = f.choose_args;
}

-- What the loops of a worker read: its own `parent_r` and `outpos`, and the shared `firstn->outpos`
-- as the position.
unfoldable pub worker_attempt : Fuel → Globals → FirstnInfo → ℕ → ℕ → Attempt
worker_attempt fuel g f parent_r outpos = record {
  map = f.map;
  bucket = f.bucket;
  weight = f.weight;
  weight_max = g.weight_max;
  x = f.x;
  r0 = u32 ((if f.stable == 0 then outpos else 0) + parent_r);
  type = f.type;
  out = f.out;
  out2 = f.out2;
  outpos = outpos;
  position = f.outpos;
  tries = f.tries;
  local_retries = f.local_retries;
  local_fallback_retries = f.local_fallback_retries;
  recurse_to_leaf = f.recurse_to_leaf;
  vary_r = f.vary_r;
  choose_args = f.choose_args;
  leaf = λ b sub_r mem. crush_choose_firstn 1 fuel (worker_leaf g f b sub_r) mem;
}

-- The loops, and the write behind them: the last item is written whether it was taken or not.
unfoldable pub worker_place : Fuel → Globals → FirstnInfo → ℕ → ℕ → Mem → Outcome Mem
worker_place fuel g f parent_r outpos mem = do
  (taken, item, mem') ←
      place fuel.outer fuel.inner (worker_attempt fuel g f parent_r outpos) 0 (pos 0) mem
  write mem' f.out outpos item

-- `do_work` takes its numbers from the structure and from the global position.
pub do_work : Fuel → Globals → FirstnInfo → Mem → Outcome (Globals × Mem)
do_work fuel g f mem = do
  parent_r ← from_option f.parent_r
  mem' ← worker_place fuel g f parent_r g.pthread_outpos mem
  ok (record g { pthread_outpos = g.pthread_outpos + 1 }, mem')

unfoldable pub do_work1 : Fuel → Globals → FirstnInfo → Mem → Outcome (FirstnInfo × Mem)
do_work1 fuel g f mem = do
  mem' ← worker_place fuel g f 0 0 mem
  ok (record f { outpos = f.outpos + 1 }, mem')

unfoldable pub do_work2 : Fuel → Globals → FirstnInfo → Mem → Outcome (FirstnInfo × Mem)
do_work2 fuel g f mem = do
  mem' ← worker_place fuel g f 1 1 mem
  ok (record f { outpos = f.outpos + 1 }, mem')

unfoldable pub do_work3 : Fuel → Globals → FirstnInfo → Mem → Outcome (FirstnInfo × Mem)
do_work3 fuel g f mem = do
  mem' ← worker_place fuel g f 2 2 mem
  ok (record f { outpos = f.outpos + 1 }, mem')

-- `while(firstn.outpos != 3){}`: the loop ends, or it never does.
unfoldable pub wait_for_workers : FirstnInfo → Outcome ℕ
wait_for_workers f = if f.outpos == 3 then ok f.outpos else out_of_fuel

-- The three workers, in the order of their creation. The array is freed at the end; the model
-- returns it.
unfoldable pub run_workers : Fuel → Globals → FirstnInfo → Mem → Outcome (FirstnInfo × Mem)
unfolding do_work1 do_work2 do_work3
run_workers fuel g f mem = do
  (f1, mem1) ← do_work1 fuel g f mem
  (f2, mem2) ← do_work2 fuel g f1 mem1
  do_work3 fuel g f2 mem2

-- A thread for each worker. `garbage` is what the new array of `numrep` entries holds.
unfoldable pub pthread_crush_choose_firstn :
    Fuel → Globals → List ℤ → FirstnInfo → Outcome (ℕ × FirstnInfo × Mem)
pthread_crush_choose_firstn fuel g garbage f = do
  (f', mem) ←
      run_workers fuel g (record f { out = some 0; out2 = some 0; outpos = 0 }) (garbage ∷ [])
  outpos ← wait_for_workers f'
  ok (outpos, f', mem)

-- The structure as `test_pthread` fills it in, for the first object. `out`, `out2` and `x` are left as
-- they are on its stack; each object sets them.
unfoldable pub test_info : CrushMap → CrushBucketStraw2 → List ℕ → ℕ → FirstnInfo
test_info map root reweight x = record {
  map = map;
  bucket = root;
  weight = reweight;
  weight_max = osd_sum;
  x = x;
  numrep = 3;
  type = 0;
  out = none;
  outpos = 0;
  out_size = 3;
  tries = map.choose_total_tries + 1;
  recurse_tries = 1;
  local_retries = map.choose_local_tries;
  local_fallback_retries = map.choose_local_fallback_tries;
  recurse_to_leaf = 1;
  vary_r = map.chooseleaf_vary_r;
  stable = map.chooseleaf_stable;
  out2 = none;
  parent_r = none;
  choose_args = none;
}

-- The loop over the objects from `i` on, which keeps the structure from object to object.
unfoldable pub object_loop :
    (FirstnInfo → ℕ → Outcome (ℕ × FirstnInfo × Mem))
    → ℕ
    → ℕ
    → FirstnInfo
    → Outcome (List (ℕ × Mem))
object_loop choose zero i f = ok []
object_loop choose (suc rounds) i f = do
  (outpos, f', mem) ← choose (record f { x = 222 + i }) i
  rest ← object_loop choose rounds (i + 1) f'
  ok ((outpos, mem) ∷ rest)

unfoldable pub test_pthread :
    Fuel → Globals → CrushMap → List ℕ → (ℕ → List ℤ) → ℕ → Outcome (List (ℕ × Mem))
unfolding test_info object_loop
test_pthread fuel g map reweight garbage rounds = do
  root ← from_option (get_elem? map.buckets 0)
  object_loop (λ f i. pthread_crush_choose_firstn fuel g (garbage i) f) rounds 0
      (test_info map root reweight 222)
