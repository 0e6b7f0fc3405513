-- ===== src/Mapper/Turn.antt =====
-- One pass of the inner do-while loop of `crush_choose_firstn`, which the workers of main.cpp
-- repeat word for word: choose an item, go down, or test it for a collision and an overload.
pub mod Accept
pub mod Total
pub mod Returns
pub mod Same
use my_ceph.Common.{
  ℕ, zero, suc, ◌+◌, ◌-◌, ◌*◌, ◌/◌, ◌%◌, ◌^◌, ◌==◌, leb, ltb, ◌&&◌, ◌||◌, not, if◌then◌else◌, List,
  Option, none, some, get_elem?, u32, low_bits, Bool, true, false,
}
use my_ceph.Common.{ℤ, pos, negsuc, ltb_ℤ, eqb_ℤ, pattern32, Outcome, ok, fault, from_option, ◌>>=◌}
use my_ceph.CrushMap.{CrushMap, CrushBucketStraw2, CrushChooseArg}
use my_ceph.Hash.{crush_hash32_2, crush_hash_rjenkins1}
use my_ceph.Straw.{crush_bucket_choose}
use my_ceph.Mapper.Memory.{Mem, Pointer, read, write}

-- Is the device overloaded or out of service? A negative index reads outside `weight`.
unfoldable pub is_out : List ℕ → ℕ → ℤ → ℕ → Outcome Bool
is_out weight weight_max (pos n) x = if leb weight_max n then ok true else (do
  w ← from_option (get_elem? weight n)
  ok (
      if leb 0x10000 w
      then false
      else if w == 0
      then true
      else not (ltb (low_bits (crush_hash32_2 crush_hash_rjenkins1 x (pattern32 (pos n))) 16) w)))
is_out weight weight_max (negsuc n) x = fault

-- `map->buckets[n]`
unfoldable pub bucket_at : CrushMap → ℕ → Outcome CrushBucketStraw2
bucket_at map n = from_option (get_elem? map.buckets n)

-- The type of an item: a device has type 0.
unfoldable pub item_type : CrushMap → ℤ → Outcome ℕ
unfolding bucket_at
item_type map (pos n) = ok 0
item_type map (negsuc n) = do b ← bucket_at map n; ok b.h.type

-- `choose_args ? &choose_args[-1-in->id] : 0`
unfoldable pub choose_arg_of : Option (List CrushChooseArg) → ℤ → Outcome (Option CrushChooseArg)
choose_arg_of none id = ok none
choose_arg_of (some args) (pos n) = fault
choose_arg_of (some args) (negsuc n) = do a ← from_option (get_elem? args n); ok (some a)

-- Does one of the items from `out[i]` on equal the item?
unfoldable pub collides : Mem → Pointer → ℕ → ℕ → ℤ → Outcome Bool
collides mem out zero i item = ok false
collides mem out (suc rounds) i item = do
  other ← read mem out i
  let rest = collides mem out rounds (i + 1) item
  if eqb_ℤ other item then ok true else rest

-- `r >> k` of an `int`: the sign bit moves in.
abbrev pub sar32 : ℕ → ℕ → ℕ
sar32 r k = if ltb r (2 ^ 31) then r / 2 ^ k else 2 ^ 32 - 1 - (2 ^ 32 - 1 - r) / 2 ^ k

unfoldable pub sub_r : ℕ → ℕ → ℕ
sub_r vary_r r = if vary_r == 0 then 0 else sar32 r (vary_r - 1)

-- What the loops of one replica read: the arguments and locals that they leave alone. `leaf` is the
-- recursive call, with the position that it returns.
pub record Attempt : Type 0 where
  pub map : CrushMap
  pub bucket : CrushBucketStraw2
  pub weight : List ℕ
  pub weight_max : ℕ
  pub x : ℕ
  pub r0 : ℕ
  pub type : ℕ
  pub out : Pointer
  pub out2 : Pointer
  pub outpos : ℕ
  pub position : ℕ
  pub tries : ℕ
  pub local_retries : ℕ
  pub local_fallback_retries : ℕ
  pub recurse_to_leaf : ℕ
  pub vary_r : ℕ
  pub choose_args : Option (List CrushChooseArg)
  pub leaf : CrushBucketStraw2 → ℕ → Mem → Outcome (ℕ × Mem)

-- How a turn ends: `in` becomes a bucket below, the same bucket is tried again, the descent starts
-- anew, the replica is given up (`skip_rep`), or the item is taken.
pub data Turn : Type 0 where
  descend_into : CrushBucketStraw2 → ℤ → Mem → Turn
  retry_bucket : ℤ → Mem → Turn
  retry_descent : ℤ → Mem → Turn
  skip_rep : ℤ → Mem → Turn
  take_item : ℤ → Mem → Turn

-- Behind the label `reject`, with the counters as they are after their increments.
unfoldable pub on_reject : Attempt → CrushBucketStraw2 → Bool → ℕ → ℕ → ℤ → Mem → Turn
on_reject a in_bucket collide ftotal flocal item mem =
    if collide && leb flocal a.local_retries
    then retry_bucket item mem
    else if ltb 0 a.local_fallback_retries
        && leb flocal (u32 (in_bucket.h.size + a.local_fallback_retries))
    then retry_bucket item mem
    else if ltb ftotal a.tries
    then retry_descent item mem
    else skip_rep item mem

-- Find a device for the item, or note it as its own: is it rejected?
unfoldable pub leaf_step : Attempt → ℤ → ℕ → Mem → Outcome (Bool × Mem)
leaf_step a (negsuc n) r mem = do
  b ← bucket_at a.map n
  (reached, mem') ← a.leaf b (sub_r a.vary_r r) mem
  ok (leb reached a.position, mem')
leaf_step a (pos n) r mem = do mem' ← write mem a.out2 a.outpos (pos n); ok (false, mem')

-- An item of the type that is looked for.
unfoldable pub turn_found : Attempt → CrushBucketStraw2 → ℕ → ℕ → ℕ → ℕ → ℤ → Mem → Outcome Turn
turn_found a in_bucket itemtype r ftotal flocal item mem = do
  collide ← collides mem a.out a.outpos 0 item
  (reject, mem') ←
      (if not collide && not (a.recurse_to_leaf == 0)
        then leaf_step a item r mem
        else ok (false, mem))
  reject' ←
      (if not reject && not collide && itemtype == 0
        then is_out a.weight a.weight_max item a.x
        else ok reject)
  ok (
      if reject' || collide
      then on_reject a in_bucket collide (u32 (ftotal + 1)) (u32 (flocal + 1)) item mem'
      else take_item item mem')

-- An item of another type: only a bucket of the map is entered.
unfoldable pub turn_inner : Attempt → ℤ → Mem → Outcome Turn
turn_inner a (pos n) mem = ok (skip_rep (pos n) mem)
turn_inner a (negsuc n) mem =
    if leb a.map.max_buckets n
    then ok (skip_rep (negsuc n) mem)
    else (do b ← bucket_at a.map n; ok (descend_into b (negsuc n) mem))

unfoldable pub turn_item : Attempt → CrushBucketStraw2 → ℕ → ℕ → ℕ → ℤ → Mem → Outcome Turn
turn_item a in_bucket r ftotal flocal item mem =
    if ltb_ℤ item a.map.max_devices
    then (do
      itemtype ← item_type a.map item
      if itemtype == a.type
          then turn_found a in_bucket itemtype r ftotal flocal item mem
          else turn_inner a item mem)
    else ok (skip_rep item mem)

-- One pass of the loop at bucket `in`.
unfoldable pub turn : Attempt → CrushBucketStraw2 → ℕ → ℕ → ℤ → Mem → Outcome Turn
turn a in_bucket ftotal flocal item mem =
    if in_bucket.h.size == 0
    then ok (on_reject a in_bucket false (u32 (ftotal + 1)) (u32 (flocal + 1)) item mem)
    else (do
      arg ← choose_arg_of a.choose_args in_bucket.h.id
      let r = u32 (a.r0 + ftotal)
      chosen ← crush_bucket_choose in_bucket a.x r arg a.position
      turn_item a in_bucket r ftotal flocal chosen mem)
