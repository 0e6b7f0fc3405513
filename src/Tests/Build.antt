-- ===== src/Tests/Build.antt =====
-- A root with its racks and hosts over devices of one weight, with room for no more.
use my_ceph.Common.{ℕ, ◌+◌, ◌≡◌, arith, List, length-replicate, replicate, Option, none, u32, ok}
use my_ceph.CrushMap.{CrushBucketStraw2}
use my_ceph.Build.{Builder, construct_root}
use my_ceph.Build.Host.{total_weight}
use my_ceph.Build.Weights.{construct_root_weighs}

abbrev weights : List ℕ
weights = replicate 750 6000000

abbrev empty_builder : Builder
empty_builder = record {
  osd_id = 0;
  bucket_id = 0;
  buckets = replicate {A = Option CrushBucketStraw2} 56 none;
}

construct_root_weighs_example :
    (root : CrushBucketStraw2) × (s' : Builder) × (construct_root weights empty_builder
      ≡ ok (root, s'))
    × (root.h.weight ≡ u32 (total_weight weights 0 750))
    × (s'.osd_id ≡ 0 + 750)
    × (s'.bucket_id ≡ 0 + 56)
construct_root_weighs_example =
    construct_root_weighs weights empty_builder
      (omega (arith, length-replicate {A = ℕ} 750 6000000))
      (omega (arith, length-replicate {A = Option CrushBucketStraw2} 56 none))
