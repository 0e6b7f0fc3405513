-- ===== src/Straw.antt =====
-- CRUSH_Research/main.cpp: the choice of an item of a straw2 bucket. Every item draws a straw, a
-- number from its hash and its weight, and the longest straw wins.
pub mod Best
pub mod Draw
pub mod Choose
pub mod Weight
use my_ceph.Common.{
  ℕ, zero, suc, ◌+◌, ◌-◌, ◌^◌, ◌==◌, leb, ◌||◌, if◌then◌else◌, List, Option, none, some, get_elem?,
}
use my_ceph.Common.{ℤ, pos, negsuc, ltb_ℤ, pattern32, Outcome, ok, fault, from_option, ◌>>=◌}
use my_ceph.CrushMap.{CrushBucketStraw2, CrushWeightSet, CrushChooseArg}
use my_ceph.Ln.{generate_exponential_distribution}

ids_or : List ℤ → Option (List ℤ) → List ℤ
ids_or items none = items
ids_or items (some ids) = ids

unfoldable pub get_choose_arg_ids : CrushBucketStraw2 → Option CrushChooseArg → List ℤ
unfolding ids_or
get_choose_arg_ids bucket none = bucket.h.items
get_choose_arg_ids bucket (some arg) = ids_or bucket.h.items arg.ids

-- The weights of the set at a position; a position past the last is the last, and there is none
-- before the first.
weights_at : List CrushWeightSet → ℕ → ℕ → Outcome (List ℕ)
weights_at sets positions position =
    if leb positions position
    then (if positions == 0
        then fault
        else (do set ← from_option (get_elem? sets (positions - 1)); ok set.weights))
    else (do set ← from_option (get_elem? sets position); ok set.weights)

set_or : List ℕ → Option (List CrushWeightSet) → ℕ → ℕ → Outcome (List ℕ)
set_or weights none positions position = ok weights
set_or weights (some sets) positions position = weights_at sets positions position

unfoldable pub get_choose_arg_weights :
    CrushBucketStraw2 → Option CrushChooseArg → ℕ → Outcome (List ℕ)
unfolding set_or weights_at
get_choose_arg_weights bucket none position = ok bucket.item_weights
get_choose_arg_weights bucket (some arg) position =
    set_or bucket.item_weights arg.weight_set arg.weight_set_positions position

-- `S64_MIN`
abbrev pub s64_min : ℤ
s64_min = negsuc (2 ^ 63 - 1)

-- The straw of item `i`; an item without weight draws the least number.
unfoldable pub straw2_draw : ℕ → List ℕ → List ℤ → ℕ → ℕ → ℕ → Outcome ℤ
straw2_draw hash weights ids x r i = do
  w ← from_option (get_elem? weights i)
  if w == 0 then ok s64_min else (do
    id ← from_option (get_elem? ids i)
    generate_exponential_distribution hash x (pattern32 id) r w)

-- The loop over the items from `i` on: `high` is the best one so far, `high_draw` its straw.
unfoldable pub straw2_loop : (ℕ → Outcome ℤ) → ℕ → ℕ → ℕ → ℤ → Outcome ℕ
straw2_loop draw zero i high high_draw = ok high
straw2_loop draw (suc rounds) i high high_draw = do
  d ← draw i
  let better = i == 0 || ltb_ℤ high_draw d
  straw2_loop draw rounds (i + 1) (if better then i else high) (if better then d else high_draw)

unfoldable pub bucket_straw2_choose :
    CrushBucketStraw2 → ℕ → ℕ → Option CrushChooseArg → ℕ → Outcome ℤ
bucket_straw2_choose bucket x r arg position = do
  weights ← get_choose_arg_weights bucket arg position
  let ids = get_choose_arg_ids bucket arg
  high ← straw2_loop (straw2_draw bucket.h.hash weights ids x r) bucket.h.size 0 0 (pos 0)
  from_option (get_elem? bucket.h.items high)

-- The work area is not looked at.
unfoldable pub crush_bucket_choose :
    CrushBucketStraw2 → ℕ → ℕ → Option CrushChooseArg → ℕ → Outcome ℤ
crush_bucket_choose in_bucket x r arg position = bucket_straw2_choose in_bucket x r arg position
