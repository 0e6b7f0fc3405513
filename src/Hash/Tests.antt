-- ===== src/Hash/Tests.antt =====
-- Hashes at inputs, against the values of the C functions.
use my_ceph.Common.{◌≡◌, refl}
use my_ceph.Hash.{crush_hash32_3, crush_hash32_rjenkins1_3}

hash_of_three : crush_hash32_3 0 222 5 1 ≡ 3432815541
unfolding crush_hash32_3 crush_hash32_rjenkins1_3
hash_of_three = refl

hash_of_no_type : crush_hash32_3 1 222 5 1 ≡ 0
unfolding crush_hash32_3
hash_of_no_type = refl
