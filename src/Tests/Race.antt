-- ===== src/Tests/Race.antt =====
-- The workers on a map of one bucket with three devices, out of their order.
use my_ceph.Common.{
  ℕ, ◌≡◌, refl, List, [], ◌∷◌, some, none, replicate, ok, ◌>>=◌, pos, negsuc, quot_ℤ,
}
use my_ceph.CrushMap.{CrushMap, CrushBucketStraw2}
use my_ceph.Hash.{
  crush_hash32_2, crush_hash32_3, crush_hash32_rjenkins1_2, crush_hash32_rjenkins1_3,
}
use my_ceph.Ln.{crush_ln, generate_exponential_distribution}
use my_ceph.Straw.{
  get_choose_arg_ids, get_choose_arg_weights, straw2_draw, straw2_loop, bucket_straw2_choose,
  crush_bucket_choose,
}
use my_ceph.Mapper.Memory.{Mem, read, write}
use my_ceph.Mapper.Turn.{
  is_out, item_type, choose_arg_of, collides, on_reject, leaf_step, turn_inner,
}
use my_ceph.Drivers.Correct.{init2_fuel}
use my_ceph.Workers.{FirstnInfo, Globals, worker_attempt}
use my_ceph.Workers.Steps.{
  go_on, judge, classify, worker_step, Worker, worker1, worker2, worker3, worker_number, phase_of,
  with_phase, counted, system_step, system_run, at_start,
}

abbrev small_bucket : CrushBucketStraw2
small_bucket = record {
  h = record {
    id = negsuc 0;
    type = 1;
    alg = 5;
    hash = 0;
    weight = 196608;
    size = 3;
    items = pos 0 ∷ pos 1 ∷ pos 2 ∷ [];
  };
  item_weights = 65536 ∷ 65536 ∷ 65536 ∷ [];
}

abbrev small_map : CrushMap
small_map = record {
  buckets = small_bucket ∷ [];
  max_buckets = 1;
  max_rules = 0;
  max_devices = pos 3;
  choose_local_tries = 0;
  choose_local_fallback_tries = 0;
  choose_total_tries = 50;
  chooseleaf_descend_once = 1;
  chooseleaf_vary_r = 1;
  chooseleaf_stable = 1;
  straw_calc_version = 1;
  allowed_bucket_algs = 0;
}

small_info : ℕ → FirstnInfo
small_info x = record {
  map = small_map;
  bucket = small_bucket;
  weight = replicate 3 65536;
  weight_max = 3;
  x = x;
  numrep = 3;
  type = 0;
  out = some 0;
  outpos = 0;
  out_size = 3;
  tries = 51;
  recurse_tries = 1;
  local_retries = 0;
  local_fallback_retries = 0;
  recurse_to_leaf = 1;
  vary_r = 1;
  stable = 1;
  out2 = some 0;
  parent_r = none;
  choose_args = none;
}

abbrev small_globals : Globals
small_globals = record { weight = replicate 3 65536; weight_max = 3; pthread_outpos = 0 }

-- A new array with no device in it.
abbrev new_arrays : Mem
new_arrays = (negsuc 0 ∷ negsuc 0 ∷ negsuc 0 ∷ []) ∷ []

-- The second worker to its end, then the first, then the third.
abbrev second_first : List Worker
second_first =
    worker2 ∷ worker2 ∷ worker2 ∷ worker2 ∷ worker1 ∷ worker1 ∷ worker1 ∷ worker1 ∷ worker3
    ∷ worker3 ∷ worker3 ∷ worker3 ∷ worker3 ∷ worker3 ∷ worker3 ∷ worker3 ∷ []

-- The first two workers take the same device.
same_device :
    ◌>>=◌ {B = ℕ × Mem}
      (system_run init2_fuel small_globals
        (small_info 1)
        second_first
        (at_start (small_info 1) new_arrays))
      (λ s. ok (s.outpos, s.mem))
    ≡ ok (3, (pos 0 ∷ pos 0 ∷ pos 2 ∷ []) ∷ [])
unfolding crush_hash32_2 crush_hash32_3 crush_hash32_rjenkins1_2 crush_hash32_rjenkins1_3 crush_ln
    generate_exponential_distribution quot_ℤ get_choose_arg_ids get_choose_arg_weights straw2_draw
    straw2_loop bucket_straw2_choose crush_bucket_choose read write is_out item_type choose_arg_of
    collides on_reject leaf_step turn_inner small_info go_on judge classify worker_step
    worker_attempt worker_number phase_of with_phase counted system_step system_run at_start
same_device = refl
