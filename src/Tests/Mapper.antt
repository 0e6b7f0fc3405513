-- ===== src/Tests/Mapper.antt =====
-- Placements on the map of `init2`.
use my_ceph.Common.{◌+◌, ◌-◌, ◌≤◌, refl, [], ◌∷◌}
use my_ceph.CrushMap.{CrushBucketStraw2}
use my_ceph.Mapper.{Firstn, crush_choose_firstn}
use my_ceph.Mapper.Results.{Filled, first_rep, crush_choose_firstn-Filled}
use my_ceph.Mapper.Total.{Returns, crush_choose_firstn_returns}
use my_ceph.Build.{init2_reweight}
use my_ceph.Build.Init2.{init2_map, init2-IsBuilt, init2-IsTuned}
use my_ceph.Drivers.{test_args, do_work4}
use my_ceph.Drivers.Correct.{init2_fuel, args-IsReady, Placement, do_work4-Placement}
use my_ceph.Tests.Run.{zeros}

abbrev root : CrushBucketStraw2
root = (init2-IsTuned).0

abbrev object_222 : Firstn
object_222 = test_args init2_map root init2_reweight 222

do_work4-Placement_example :
    Placement init2_map 222 (do_work4 init2_fuel init2_map init2_reweight zeros 222)
do_work4-Placement_example = do_work4-Placement 222 zeros refl

crush_choose_firstn_returns_example :
    Returns (3 ∷ []) (crush_choose_firstn 2 init2_fuel object_222 (zeros ∷ []))
crush_choose_firstn_returns_example =
    crush_choose_firstn_returns init2_fuel object_222 (zeros ∷ [])
      (args-IsReady init2_map root 222 init2-IsBuilt init2-IsTuned.1) refl

call_222 : Returns (3 ∷ []) (crush_choose_firstn 2 init2_fuel object_222 (zeros ∷ []))
call_222 =
    crush_choose_firstn_returns init2_fuel object_222 (zeros ∷ [])
      (args-IsReady init2_map root 222 init2-IsBuilt init2-IsTuned.1) refl

crush_choose_firstn-Filled_example :
    Filled object_222 0
      (object_222.numrep - first_rep object_222)
      (zeros ∷ [])
      call_222.0
      call_222.1
    × (call_222.0 ≤ 0 + 3)
unfolding test_args
crush_choose_firstn-Filled_example =
    crush_choose_firstn-Filled 2 init2_fuel object_222 (zeros ∷ []) call_222.0 call_222.1 call_222.2
