-- ===== src/Tests/Workers.antt =====
-- The workers on the map of `init2`, where no replica is given up.
use my_ceph.Common.{ℕ, zero, suc, ◌≡◌, ◌≢◌, refl, arith, [], ◌∷◌, get_elem?, some, replicate, ok}
use my_ceph.CrushMap.{CrushBucketStraw2}
use my_ceph.Mapper.Memory.{Mem}
use my_ceph.Build.{init2_reweight, osd_sum}
use my_ceph.Build.Init2.{init2_map, init2-IsBuilt, init2-IsTuned}
use my_ceph.Drivers.Correct.{init2_fuel}
use my_ceph.Workers.{Globals, test_pthread}
use my_ceph.Workers.Objects.{AllThree, IsTestMap, test_pthread-eq-test}
use my_ceph.Tests.Run.{zeros, devices_222, run_222}

abbrev pub globals : Globals
globals = record { weight = replicate osd_sum 176; weight_max = osd_sum; pthread_outpos = 0 }

abbrev pub root : CrushBucketStraw2
root = (init2-IsTuned).0

root_full : root.h.size ≢ 0
root_full = omega (arith, (init2-IsTuned).1.size)

test_map : IsTestMap globals init2_map root
test_map = record {
  typed = record { typed = init2-IsBuilt.tree.typed };
  root_at = (init2-IsTuned).1.root_at;
  full = root_full;
  stable = omega (arith, (init2-IsTuned).1.stable);
  weight_max = refl;
}

all_three : AllThree ((3, devices_222) ∷ [])
all_three = record { three = first }
  where
    first : (j : ℕ) (r : ℕ × Mem) → get_elem? ((3, devices_222) ∷ []) j ≡ some r → r.0 ≡ 3
    first zero r h = cc
    first (suc j) r h = cc

test_pthread-eq-test_example :
    test_pthread init2_fuel globals init2_map init2_reweight (λ _. zeros) 1
    ≡ ok ((3, devices_222) ∷ [])
test_pthread-eq-test_example =
    test_pthread-eq-test init2_fuel globals init2_map root init2_reweight (λ _. zeros) 1
      ((3, devices_222) ∷ []) test_map run_222 all_three
