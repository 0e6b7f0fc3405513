-- ===== src/Tests/Run.antt =====
-- The placement of an object on the map of `init2`, evaluated.
use my_ceph.Common.{◌≡◌, refl, List, [], ◌∷◌, ok, ℤ, pos}
use my_ceph.Hash.{
  crush_hash32_2, crush_hash32_3, crush_hash32_rjenkins1_2, crush_hash32_rjenkins1_3,
}
use my_ceph.Ln.{crush_ln, generate_exponential_distribution}
use my_ceph.Common.{quot_ℤ}
use my_ceph.Straw.{
  get_choose_arg_ids, get_choose_arg_weights, straw2_draw, straw2_loop, bucket_straw2_choose,
  crush_bucket_choose,
}
use my_ceph.Mapper.{attempt, leaf_firstn, replicas, crush_choose_firstn}
use my_ceph.Mapper.Memory.{Mem, read, write}
use my_ceph.Mapper.Turn.{
  is_out, bucket_at, item_type, choose_arg_of, collides, sub_r, on_reject, leaf_step, turn_found,
  turn_inner, turn_item, turn,
}
use my_ceph.Mapper.Loops.{try_bucket, place}
use my_ceph.Build.{init2_reweight}
use my_ceph.Build.Init2.{init2_map}
use my_ceph.Drivers.{test_args, test}
use my_ceph.Drivers.Correct.{init2_fuel}

abbrev pub zeros : List ℤ
zeros = pos 0 ∷ pos 0 ∷ pos 0 ∷ []

-- The devices of object 222.
abbrev pub devices_222 : Mem
devices_222 = (pos 590 ∷ pos 347 ∷ pos 135 ∷ []) ∷ []

pub run_222 : test init2_fuel init2_map init2_reweight (λ _. zeros) 1 0 ≡ ok ((3, devices_222) ∷ [])
unfolding crush_hash32_2 crush_hash32_3 crush_hash32_rjenkins1_2 crush_hash32_rjenkins1_3 crush_ln
    generate_exponential_distribution quot_ℤ get_choose_arg_ids get_choose_arg_weights straw2_draw
    straw2_loop bucket_straw2_choose crush_bucket_choose attempt leaf_firstn replicas
    crush_choose_firstn read write is_out bucket_at item_type choose_arg_of collides sub_r on_reject
    leaf_step turn_found turn_inner turn_item turn try_bucket place init2_reweight init2_map
    test_args test
run_222 = refl
