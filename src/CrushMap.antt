-- ===== src/CrushMap.antt =====
-- CRUSH_Research/include/crush.h: the data of a CRUSH map, as main.cpp uses it. A `__u32`, `__u16`
-- or `__u8` field is its value, an `__s32` item is an integer: a device, or -1-n for bucket n.
use my_ceph.Common.{ℕ, List, Option, ℤ}

-- `struct crush_bucket`
pub record CrushBucket : Type 0 where
  pub id : ℤ
  pub type : ℕ
  pub alg : ℕ
  pub hash : ℕ
  pub weight : ℕ
  pub size : ℕ
  pub items : List ℤ

-- `struct crush_bucket_straw2`, to which every bucket of the program is cast
pub record CrushBucketStraw2 : Type 0 where
  pub h : CrushBucket
  pub item_weights : List ℕ

-- `struct crush_weight_set`
pub record CrushWeightSet : Type 0 where
  pub weights : List ℕ
  pub size : ℕ

-- `struct crush_choose_arg`; `none` is a null pointer
pub record CrushChooseArg : Type 0 where
  pub ids : Option (List ℤ)
  pub ids_size : ℕ
  pub weight_set : Option (List CrushWeightSet)
  pub weight_set_positions : ℕ

-- `struct crush_map`. The array of rules is a null pointer throughout and is left out; `buckets`
-- holds the pointers that have been filled in.
pub record CrushMap : Type 0 where
  pub buckets : List CrushBucketStraw2
  pub max_buckets : ℕ
  pub max_rules : ℕ
  pub max_devices : ℤ
  pub choose_local_tries : ℕ
  pub choose_local_fallback_tries : ℕ
  pub choose_total_tries : ℕ
  pub chooseleaf_descend_once : ℕ
  pub chooseleaf_vary_r : ℕ
  pub chooseleaf_stable : ℕ
  pub straw_calc_version : ℕ
  pub allowed_bucket_algs : ℕ
