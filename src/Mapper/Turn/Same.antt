-- ===== src/Mapper/Turn/Same.antt =====
-- What the loops of a replica do not depend on: the recursive call, when devices are looked for, and
-- the item left over from the replica before, when the start has items.
use my_ceph.Common.{
  ℕ, ◌+◌, ◌==◌, ◌≡◌, ◌≢◌, refl, ap, ◌∙◌, arith, false, if◌then◌else◌, get_elem?, Option, none, some,
  u32, Outcome, ok, fault, out_of_fuel, from_option, ◌>>=◌, ℤ, pos, negsuc, ltb_ℤ,
}
use my_ceph.CrushMap.{CrushMap, CrushBucketStraw2}
use my_ceph.Straw.{crush_bucket_choose}
use my_ceph.Mapper.Memory.{Mem}
use my_ceph.Mapper.Turn.{
  Attempt, skip_rep, bucket_at, item_type, on_reject, leaf_step, turn_found, turn_inner, turn_item,
  turn, choose_arg_of,
}

-- The same attempt with another recursive call.
abbrev pub with_leaf : Attempt → (CrushBucketStraw2 → ℕ → Mem → Outcome (ℕ × Mem)) → Attempt
with_leaf a l = record a { leaf = l }

-- No bucket of the map has the type of a device.
pub record IsTyped (m : CrushMap) : Type 0 where
  pub typed : (n : ℕ) (c : CrushBucketStraw2) → get_elem? m.buckets n ≡ some c → c.h.type ≢ 0

pub >>=-cong {ℓ κ} :
    {A : Type ℓ} {B : Type κ} {m m' : Outcome A} {f g : A → Outcome B}
    → m ≡ m'
    → ((a : A) → f a ≡ g a)
    → (m >>= f) ≡ (m' >>= g)
>>=-cong {A = A} {m' = m'} {f = f} {g = g} e h = ap (λ m. m >>= f) e ∙ after m'
  where
    after : (m : Outcome A) → (m >>= f) ≡ (m >>= g)
    after (ok a) = h a
    after fault = refl
    after out_of_fuel = refl

module _ (a : Attempt) (l : CrushBucketStraw2 → ℕ → Mem → Outcome (ℕ × Mem)) where
  turn_found_same :
      (b : CrushBucketStraw2) (itemtype r ft fl n : ℕ) (mem : Mem)
      → turn_found (with_leaf a l) b itemtype r ft fl (pos n) mem
        ≡ turn_found a b itemtype r ft fl (pos n) mem
  unfolding turn_found leaf_step on_reject
  turn_found_same b itemtype r ft fl n mem = refl

  -- A bucket is never an item that is looked for.
  bucket_same :
      a.type ≡ 0
      → (b : CrushBucketStraw2) (r ft fl n : ℕ) (mem : Mem) (o : Option CrushBucketStraw2)
      → ((c : CrushBucketStraw2) → o ≡ some c → c.h.type ≢ 0)
      → (do
        itemtype ← (do b' ← from_option o; ok b'.h.type)
        if itemtype == a.type
            then turn_found (with_leaf a l) b itemtype r ft fl (negsuc n) mem
            else turn_inner a (negsuc n) mem)
        ≡ (do
          itemtype ← (do b' ← from_option o; ok b'.h.type)
          if itemtype == a.type
              then turn_found a b itemtype r ft fl (negsuc n) mem
              else turn_inner a (negsuc n) mem)
  bucket_same dev b r ft fl n mem none typed = refl
  bucket_same dev b r ft fl n mem (some c) typed = rw (other (typed c refl)) refl
    where
      other : c.h.type ≢ 0 → (c.h.type == a.type) ≡ false
      other nz = ground arith

  turn_item_same :
      a.type ≡ 0
      → IsTyped a.map
      → (b : CrushBucketStraw2) (r ft fl : ℕ) (item : ℤ) (mem : Mem)
      → turn_item (with_leaf a l) b r ft fl item mem ≡ turn_item a b r ft fl item mem
  unfolding turn_item turn_inner item_type bucket_at
  turn_item_same dev t b r ft fl (pos n) mem = rw (turn_found_same b 0 r ft fl n mem) refl
  turn_item_same dev t b r ft fl (negsuc n) mem =
      ap (λ m. if ltb_ℤ (negsuc n) a.map.max_devices then m else ok (skip_rep (negsuc n) mem))
        (bucket_same dev b r ft fl n mem (get_elem? a.map.buckets n) (t.typed n))

  -- When devices are looked for, a turn does not depend on the recursive call.
  pub turn_same_leaf :
      a.type ≡ 0
      → IsTyped a.map
      → (b : CrushBucketStraw2) (ft fl : ℕ) (item : ℤ) (mem : Mem)
      → turn (with_leaf a l) b ft fl item mem ≡ turn a b ft fl item mem
  unfolding turn on_reject
  turn_same_leaf dev t b ft fl item mem =
      ap
        (λ m.
          if b.h.size == 0
          then ok (on_reject a b false (u32 (ft + 1)) (u32 (fl + 1)) item mem)
          else m)
        (>>=-cong {m = choose_arg_of a.choose_args b.h.id} refl (λ arg.
          >>=-cong {m = crush_bucket_choose b a.x (u32 (a.r0 + ft)) arg a.position} refl
            (λ c. turn_item_same dev t b (u32 (a.r0 + ft)) ft fl c mem)))

-- In a bucket that has items, a turn does not depend on the item before.
pub turn_same_item :
    (a : Attempt) (b : CrushBucketStraw2) (ft fl : ℕ) (item other : ℤ) (mem : Mem)
    → b.h.size ≢ 0
    → turn a b ft fl item mem ≡ turn a b ft fl other mem
unfolding turn
turn_same_item a b ft fl item other mem nz = rw (full nz) refl
  where
    full : b.h.size ≢ 0 → (b.h.size == 0) ≡ false
    full nz = ground arith
