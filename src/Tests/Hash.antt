-- ===== src/Tests/Hash.antt =====
-- crush_hash.c, the logarithm and the straws, at inputs.
use my_ceph.Common.{
  ℕ, ◌≤◌, ◌<◌, ◌^◌, ◌≡◌, ◌≢◌, refl, arith, [], ◌∷◌, get_elem?, none, some, ◌⊎◌, zero, suc,
}
use my_ceph.Common.{ℤ, pos, ok}
use my_ceph.CrushMap.{CrushBucketStraw2}
use my_ceph.Hash.{Words, crush_hashmix}
use my_ceph.Hash.Mix.{unmix, crush_hashmix_bijective}
use my_ceph.Ln.{crush_ln}
use my_ceph.Ln.Monotone.{LeOutcome, top_value, crush_ln-LeOutcome, crush_ln-le-top_value}
use my_ceph.Straw.{bucket_straw2_choose}
use my_ceph.Straw.Best.{IsBest}
use my_ceph.Straw.Choose.{
  IsBucket, straw, bucket_straw2_choose-IsBest, bucket_straw2_choose_weighted,
}
use my_ceph.Straw.Weight.{reweigh, bucket_straw2_choose_raise}

abbrev words : Words
words = record { a = 222; b = 5; c = 1 }

crush_hashmix_bijective_example :
    (unmix (crush_hashmix words) ≡ words) × (crush_hashmix (unmix words) ≡ words)
crush_hashmix_bijective_example =
    crush_hashmix_bijective words
      (record { a_fits = omega arith; b_fits = omega arith; c_fits = omega arith })

crush_ln-LeOutcome_example : LeOutcome (crush_ln 1000) (crush_ln 65534)
crush_ln-LeOutcome_example = crush_ln-LeOutcome 1000 65534 (omega arith) (omega arith)

crush_ln-le-top_value_example : (l : ℕ) × (crush_ln 65535 ≡ ok l) × (l ≤ top_value)
crush_ln-le-top_value_example = crush_ln-le-top_value 65535 (omega arith)

-- A bucket of three devices, of which the second has no weight.
abbrev host : CrushBucketStraw2
host = record {
  h = record {
    id = pos 0;
    type = 1;
    alg = 6;
    hash = 0;
    weight = 0x30000;
    size = 3;
    items = pos 4 ∷ pos 5 ∷ pos 6 ∷ [];
  };
  item_weights = 0x10000 ∷ 0 ∷ 0x20000 ∷ [];
}

light : (i w : ℕ) → get_elem? host.item_weights i ≡ some w → w < 2 ^ 31
light zero w e = ground arith
light (suc zero) w e = ground arith
light (suc (suc zero)) w e = ground arith
light (suc (suc (suc i))) w e = cc

host-IsBucket : IsBucket host
host-IsBucket = record {
  nonempty = omega arith;
  items_in = omega arith;
  weights_in = omega arith;
  light = light;
}

bucket_straw2_choose-IsBest_example :
    (high : ℕ) × (item : ℤ) × (bucket_straw2_choose host 222 1 none 0 ≡ ok item)
    × (get_elem? host.h.items high ≡ some item)
    × IsBest (straw host 222 1) 3 high
bucket_straw2_choose-IsBest_example = bucket_straw2_choose-IsBest host 222 1 0 host-IsBucket

bucket_straw2_choose_weighted_example :
    (high : ℕ) × (w : ℕ) × (item : ℤ) × (bucket_straw2_choose host 222 1 none 0 ≡ ok item)
    × (get_elem? host.h.items high ≡ some item)
    × (get_elem? host.item_weights high ≡ some w)
    × (w ≢ 0)
bucket_straw2_choose_weighted_example =
    bucket_straw2_choose_weighted host 222 1 0 2 0x20000 host-IsBucket (omega arith) refl
      (omega arith)

bucket_straw2_choose_raise_example :
    (item : ℤ) × (item' : ℤ) × (bucket_straw2_choose host 222 1 none 0 ≡ ok item)
    × (bucket_straw2_choose (reweigh host 1 0x30000) 222 1 none 0 ≡ ok item')
    × ((item' ≡ item) ⊎ (get_elem? host.h.items 1 ≡ some item'))
bucket_straw2_choose_raise_example =
    bucket_straw2_choose_raise host 1 0 0x30000 host-IsBucket refl (omega arith) (omega arith)
      (omega arith) 222 1 0
