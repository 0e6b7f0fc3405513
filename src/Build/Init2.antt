-- ===== src/Build/Init2.antt =====
-- The map that `init2` builds, evaluated: a hierarchy of 56 buckets over 750 devices.
use my_ceph.Common.{◌≡◌, refl, true, [], get_elem?, some}
use my_ceph.Common.{pos, Outcome, ok, fault, out_of_fuel}
use my_ceph.CrushMap.{CrushMap, CrushBucketStraw2}
use my_ceph.Build.{init2, main_buckets, tuned_map}
use my_ceph.Build.Check.{map_ok, IsBuilt, map_ok_sound}

-- The map of a run that has one.
map_of : Outcome CrushMap → CrushMap
map_of (ok m) = m
map_of fault = tuned_map [] 0 (pos 0)
map_of out_of_fuel = tuned_map [] 0 (pos 0)

unfoldable pub init2_map : CrushMap
unfolding map_of init2 tuned_map
init2_map = map_of (init2 main_buckets)

pub init2_returns : init2 main_buckets ≡ ok init2_map
unfolding init2_map
init2_returns = refl

init2_map_ok : map_ok init2_map 10 ≡ true
unfolding init2_map map_ok
init2_map_ok = refl

pub init2-IsBuilt : IsBuilt init2_map 10
init2-IsBuilt = map_ok_sound init2_map 10 init2_map_ok

-- The tunables and the root, as the drivers read them.
pub record IsTuned (m : CrushMap) (root : CrushBucketStraw2) : Type 0 where
  pub root_at : get_elem? m.buckets 0 ≡ some root
  pub size : root.h.size ≡ 5
  pub tries : m.choose_total_tries ≡ 50
  pub local_tries : m.choose_local_tries ≡ 0
  pub fallback_tries : m.choose_local_fallback_tries ≡ 0
  pub stable : m.chooseleaf_stable ≡ 1
  pub devices : m.max_devices ≡ pos 750

pub init2-IsTuned : (root : CrushBucketStraw2) × IsTuned init2_map root
unfolding init2_map
init2-IsTuned = (
  _,
  record {
    root_at = refl;
    size = refl;
    tries = refl;
    local_tries = refl;
    fallback_tries = refl;
    stable = refl;
    devices = refl;
  },
)
