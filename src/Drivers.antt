-- ===== src/Drivers.antt =====
-- CRUSH_Research/main.cpp: `test` and `do_work4`, which place three replicas of each object on the
-- map that `init2` has built. What they place is thrown away; the model returns it.
pub mod Correct
use my_ceph.Common.{
  ℕ, zero, suc, ◌+◌, List, [], ◌∷◌, get_elem?, none, some, Outcome, ok, from_option, ◌>>=◌,
}
use my_ceph.Common.{ℤ}
use my_ceph.CrushMap.{CrushMap, CrushBucketStraw2}
use my_ceph.Mapper.{Firstn, crush_choose_firstn}
use my_ceph.Mapper.Memory.{Mem}
use my_ceph.Mapper.Loops.{Fuel}
use my_ceph.Build.{osd_sum}

-- The arguments of the call in `test`: `out` and `out2` are one array of three entries.
unfoldable pub test_args : CrushMap → CrushBucketStraw2 → List ℕ → ℕ → Firstn
test_args map root reweight x = record {
  map = map;
  bucket = root;
  weight = reweight;
  weight_max = osd_sum;
  x = x;
  numrep = 3;
  type = 0;
  out = some 0;
  outpos = 0;
  out_size = 3;
  tries = map.choose_total_tries + 1;
  recurse_tries = 1;
  local_retries = map.choose_local_tries;
  local_fallback_retries = map.choose_local_fallback_tries;
  recurse_to_leaf = 1;
  vary_r = map.chooseleaf_vary_r;
  stable = map.chooseleaf_stable;
  out2 = some 0;
  parent_r = 0;
  choose_args = none;
}

-- `do_work4` makes the same call for one object, over an array of its own; `garbage` is what the
-- new array holds.
pub do_work4 : Fuel → CrushMap → List ℕ → List ℤ → ℕ → Outcome (ℕ × Mem)
unfolding test_args
do_work4 fuel map reweight garbage x = do
  root ← from_option (get_elem? map.buckets 0)
  crush_choose_firstn 2 fuel (test_args map root reweight x) (garbage ∷ [])

-- The loop of `test` over the objects from `i` on; `garbage i` is what the new array holds.
unfoldable pub test : Fuel → CrushMap → List ℕ → (ℕ → List ℤ) → ℕ → ℕ → Outcome (List (ℕ × Mem))
unfolding test_args
test fuel map reweight garbage zero i = ok []
test fuel map reweight garbage (suc rounds) i = do
  root ← from_option (get_elem? map.buckets 0)
  r ← crush_choose_firstn 2 fuel (test_args map root reweight (222 + i)) (garbage i ∷ [])
  rest ← test fuel map reweight garbage rounds (i + 1)
  ok (r ∷ rest)

-- `test2` starts a thread that runs `do_work4` for each object, and waits for it.
pub test2 : Fuel → CrushMap → List ℕ → (ℕ → List ℤ) → ℕ → ℕ → Outcome (List (ℕ × Mem))
unfolding do_work4
test2 fuel map reweight garbage zero i = ok []
test2 fuel map reweight garbage (suc rounds) i = do
  r ← do_work4 fuel map reweight (garbage i) (222 + i)
  rest ← test2 fuel map reweight garbage rounds (i + 1)
  ok (r ∷ rest)
