-- ===== src/Drivers/Correct.antt =====
-- The calls that `test` and `do_work4` make on the map of `init2` return three distinct devices in
-- service at most, and both drivers place the same.
use my_ceph.Common.{
  ℕ, zero, suc, ◌+◌, ◌≤◌, ◌<◌, ◌≡◌, refl, ap, arith, List, [], ◌∷◌, get_elem?, length,
  length-replicate, some, Outcome, ok, fault, out_of_fuel, from_option, ◌>>=◌,
}
use my_ceph.Common.{ℤ}
use my_ceph.CrushMap.{CrushMap, CrushBucketStraw2}
use my_ceph.Mapper.{crush_choose_firstn}
use my_ceph.Mapper.Memory.{Mem}
use my_ceph.Mapper.Loops.{Fuel}
use my_ceph.Mapper.Results.{IsEntry, crush_choose_firstn-Filled}
use my_ceph.Mapper.Total.{IsReady, crush_choose_firstn_returns}
use my_ceph.Build.{init2_reweight, osd_sum}
use my_ceph.Build.Check.{level, IsBuilt}
use my_ceph.Build.Init2.{init2_map, init2-IsBuilt, IsTuned, init2-IsTuned}
use my_ceph.Drivers.{test_args, do_work4, test, test2}

-- Fuel for the map of `init2`: more than its highest level, and more than 51 tries.
abbrev pub init2_fuel : Fuel
init2_fuel = record { inner = 11; outer = 52 }

length-init2_reweight : length init2_reweight ≡ osd_sum
unfolding init2_reweight
length-init2_reweight = length-replicate {A = ℕ} osd_sum 65536

pub args-IsReady :
    (m : CrushMap) (root : CrushBucketStraw2) (x : ℕ)
    → IsBuilt m 10
    → IsTuned m root
    → IsReady level 10 (3 ∷ []) init2_fuel (test_args m root init2_reweight x)
unfolding test_args
args-IsReady m root x b i = record {
  tree = b.tree;
  low = b.low;
  start = b.tree.nodes 0 root i.root_at;
  start_low = b.low 0 root i.root_at;
  weights = omega (arith, length-init2_reweight);
  no_args = refl;
  no_fallback = i.fallback_tries;
  room = (3, refl, omega arith);
  room2 = λ nz. (3, refl, omega arith);
  inner = omega (arith, i.local_tries);
  outer = omega (arith, i.tries);
  outer_leaf = omega arith;
  counts = omega (arith, i.tries, i.local_tries);
  counts_leaf = omega (arith, i.local_tries);
}

-- What `do_work4` ends with for object `x`: the arguments of its call, the number of entries that
-- it has filled, and the arrays.
pub record Placement (m : CrushMap) (x : ℕ) (r : Outcome (ℕ × Mem)) : Type 0 where
  pub root : CrushBucketStraw2
  pub root_at : get_elem? m.buckets 0 ≡ some root
  pub placed : ℕ
  pub mem : Mem
  pub returned : r ≡ ok (placed, mem)
  pub at_most : placed ≤ 3
  pub entries : (i : ℕ) → i < placed → IsEntry (test_args m root init2_reweight x) mem i

-- On the map that `init2` builds, with no device reweighted, `do_work4` returns for every object
-- number and every content of its new array of three entries: it has filled at most three entries,
-- each with a device of the map that is in service and stands at no earlier entry.
pub do_work4-Placement :
    (x : ℕ) (garbage : List ℤ)
    → length garbage ≡ 3
    → Placement init2_map x (do_work4 init2_fuel init2_map init2_reweight garbage x)
unfolding do_work4
do_work4-Placement x garbage len =
    let (root, i) = init2-IsTuned in
    let (hi, mem, e, es) =
      crush_choose_firstn_returns init2_fuel (test_args init2_map root init2_reweight x)
        (garbage ∷ []) (args-IsReady init2_map root x init2-IsBuilt i)
        (ap (λ (n : ℕ). n ∷ []) len) in
    let (f, le) =
      crush_choose_firstn-Filled 2 init2_fuel (test_args init2_map root init2_reweight x)
        (garbage ∷ []) hi mem e in
    record {
      root = root;
      root_at = i.root_at;
      placed = hi;
      mem = mem;
      returned = rw i.root_at e;
      at_most = (unfold test_args in le);
      entries = λ k lt. f.entries k (unfold test_args in omega arith) lt;
    }

-- A thread for each object places what the loop places: `test2` gives the results of `test`, on
-- every map, and a fault where `test` gives one.
pub test2-eq-test :
    (fuel : Fuel) (m : CrushMap) (reweight : List ℕ) (garbage : ℕ → List ℤ) (rounds i : ℕ)
    → test2 fuel m reweight garbage rounds i ≡ test fuel m reweight garbage rounds i
unfolding test test2 do_work4
test2-eq-test fuel m reweight garbage zero i = refl
test2-eq-test fuel m reweight garbage (suc rounds) i =
    rw (test2-eq-test fuel m reweight garbage rounds (i + 1))
      (regroup (from_option (get_elem? m.buckets 0)))
  where
    regroup :
        (o : Outcome CrushBucketStraw2)
        → ((o >>= λ root.
              crush_choose_firstn 2 fuel (test_args m root reweight (222 + i)) (garbage i ∷ []))
            >>= λ r. test fuel m reweight garbage rounds (i + 1) >>= λ rest. ok (r ∷ rest))
          ≡ (o >>= λ root.
              crush_choose_firstn 2 fuel (test_args m root reweight (222 + i)) (garbage i ∷ [])
              >>= λ r. test fuel m reweight garbage rounds (i + 1) >>= λ rest. ok (r ∷ rest))
    regroup (ok root) = refl
    regroup fault = refl
    regroup out_of_fuel = refl
