-- ===== src/Build.antt =====
-- CRUSH_Research/main.cpp: how the program builds its maps. `init2` builds a root of 5 racks of 10
-- hosts of `host_osd_nums` devices, `init` a root of 10 hosts. The globals that count devices and
-- buckets, and the array of bucket pointers, are the state of a build.
pub mod Check
pub mod Init2
pub mod Host
pub mod Weights
use my_ceph.Common.{
  ℕ, zero, suc, ◌+◌, ◌-◌, ◌/◌, ◌==◌, ltb, if◌then◌else◌, List, [], ◌∷◌, ◌++◌, get_elem?, length,
  set, replicate, Option, none, some, u32,
}
use my_ceph.Common.{ℤ, pos, negsuc, sub_ℕ, Outcome, ok, fault, from_option, ◌>>=◌}
use my_ceph.CrushMap.{CrushMap, CrushBucket, CrushBucketStraw2}

-- The constants of main.cpp.
abbrev pub osd_sum : ℕ
osd_sum = 10000

abbrev pub host_osd_nums : ℕ
host_osd_nums = 15

-- `global_osd_id`, `global_bucket_id` and the array `buckets`, where `none` is a pointer that has
-- not been set.
pub record Builder : Type 0 where
  pub osd_id : ℕ
  pub bucket_id : ℕ
  pub buckets : List (Option CrushBucketStraw2)

-- The arrays of a bucket under construction, and its weight.
pub record Parts : Type 0 where
  pub items : List ℤ
  pub item_weights : List ℕ
  pub weight : ℕ

abbrev pub no_parts : Parts
no_parts = record { items = []; item_weights = []; weight = 0 }

-- The next item with its weight, added to the bucket's own with wrap-around.
pub add_part : Parts → ℤ → ℕ → Parts
add_part p item w = record {
  items = p.items ++ (item ∷ []);
  item_weights = p.item_weights ++ (w ∷ []);
  weight = u32 (p.weight + w);
}

-- A bucket of the algorithm and the hash that every bucket here has.
pub straw2_bucket : ℤ → ℕ → ℕ → Parts → CrushBucketStraw2
straw2_bucket id type size p = record {
  h = record {
    id = id;
    type = type;
    alg = 6;
    hash = 0;
    weight = p.weight;
    size = size;
    items = p.items;
  };
  item_weights = p.item_weights;
}

-- `buckets[n] = b`
pub store_bucket : Builder → ℕ → CrushBucketStraw2 → Outcome Builder
store_bucket s n b =
    if ltb n (length s.buckets) then ok (record s { buckets = set s.buckets n (some b) }) else fault

-- The loop of `construct_host`: a device, its number counted up, and its weight.
pub host_loop : ℕ → List ℕ → Parts → ℕ → Outcome (Parts × ℕ)
unfolding add_part
host_loop zero weight p osd_id = ok (p, osd_id)
host_loop (suc rounds) weight p osd_id = do
  w ← from_option (get_elem? weight osd_id)
  host_loop rounds weight (add_part p (pos osd_id) w) (osd_id + 1)

pub construct_host : List ℕ → ℤ → Builder → Outcome (CrushBucketStraw2 × Builder)
unfolding host_loop straw2_bucket
construct_host weight id s = do
  (p, osd_id) ← host_loop host_osd_nums weight no_parts s.osd_id
  ok (straw2_bucket id 1 host_osd_nums p, record s { osd_id = osd_id })

-- The loop that `construct_rack` and `construct_root` share: a bucket number, the child that is
-- constructed under it, and the child's weight.
pub child_loop :
    (ℤ → Builder → Outcome (CrushBucketStraw2 × Builder))
    → ℕ
    → Parts
    → Builder
    → Outcome (Parts × Builder)
unfolding store_bucket add_part
child_loop construct zero p s = ok (p, s)
child_loop construct (suc rounds) p s = do
  let item_id = s.bucket_id
  (child, s') ← construct (negsuc item_id) (record s { bucket_id = item_id + 1 })
  s'' ← store_bucket s' item_id child
  child_loop construct rounds (add_part p (negsuc item_id) child.h.weight) s''

pub construct_rack : List ℕ → ℤ → Builder → Outcome (CrushBucketStraw2 × Builder)
unfolding construct_host child_loop straw2_bucket
construct_rack weight id s = do
  (p, s') ← child_loop (construct_host weight) 10 no_parts s
  ok (straw2_bucket id 3 10 p, s')

-- The program stores the root's pointer before it fills in the root; nothing reads it meanwhile.
pub construct_root : List ℕ → Builder → Outcome (CrushBucketStraw2 × Builder)
unfolding construct_rack child_loop straw2_bucket store_bucket
construct_root weight s = do
  let root_id = s.bucket_id
  (p, s') ← child_loop (construct_rack weight) 5 no_parts (record s { bucket_id = root_id + 1 })
  let root = straw2_bucket (negsuc 0) 10 5 p
  s'' ← store_bucket s' root_id root
  ok (root, s'')

-- The pointers up to the first that has not been set.
pub set_buckets : List (Option CrushBucketStraw2) → List CrushBucketStraw2
set_buckets [] = []
set_buckets (none ∷ bs) = []
set_buckets (some b ∷ bs) = b ∷ set_buckets bs

-- The map with the tunables that both initialisers set.
pub tuned_map : List CrushBucketStraw2 → ℕ → ℤ → CrushMap
tuned_map buckets max_buckets max_devices = record {
  buckets = buckets;
  max_buckets = max_buckets;
  max_rules = 2;
  max_devices = max_devices;
  choose_local_tries = 0;
  choose_local_fallback_tries = 0;
  choose_total_tries = 50;
  chooseleaf_descend_once = 1;
  chooseleaf_vary_r = 1;
  chooseleaf_stable = 1;
  straw_calc_version = 1;
  allowed_bucket_algs = 54;
}

-- The globals `weight` and `reweight` after the loop of `init2`.
pub init2_weight : List ℕ
init2_weight = replicate osd_sum 176

unfoldable pub init2_reweight : List ℕ
init2_reweight = replicate osd_sum 65536

-- `main` passes an array of 1000 pointers.
abbrev pub main_buckets : List (Option CrushBucketStraw2)
main_buckets = replicate 1000 none

unfoldable pub init2 : List (Option CrushBucketStraw2) → Outcome CrushMap
unfolding construct_root set_buckets tuned_map init2_weight
init2 buckets = do
  (root, s) ← construct_root init2_weight (record { osd_id = 0; bucket_id = 0; buckets = buckets })
  ok (tuned_map (set_buckets s.buckets) s.bucket_id (pos s.osd_id))

-- The hosts of `init`, from index `i` on: host `i` has the identifier -1-i and the next devices.
pub init_hosts : ℕ → ℕ → List ℕ → ℕ → ℕ → Outcome (List CrushBucketStraw2 × ℕ)
unfolding host_loop straw2_bucket
init_hosts zero i weight size osd = ok ([], osd)
init_hosts (suc rounds) i weight size osd = do
  (p, osd') ← host_loop size weight no_parts osd
  (hosts, last) ← init_hosts rounds (i + 1) weight size osd'
  ok (straw2_bucket (negsuc i) 1 size p ∷ hosts, last)

-- The root's items are the hosts, in order.
pub root_parts : List CrushBucketStraw2 → Parts → Parts
unfolding add_part
root_parts [] p = p
root_parts (b ∷ hosts) p = root_parts hosts (add_part p b.h.id b.h.weight)

unfoldable pub init : List ℕ → ℕ → Outcome CrushMap
unfolding init_hosts root_parts straw2_bucket tuned_map
init weight nums = do
  (hosts, osd) ← init_hosts 10 1 weight (nums / 10) 0
  ok (
      tuned_map (straw2_bucket (negsuc 0) 11 10 (root_parts hosts no_parts) ∷ hosts) 11
        (sub_ℕ osd 1))
