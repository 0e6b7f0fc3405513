-- ===== src/Build/Check.antt =====
-- A test that a finished map is a hierarchy, whose levels are the types of its buckets, with its
-- soundness. It is run on the maps that the program builds.
use my_ceph.Common.{
  some-inj, ℕ, zero, suc, ◌≤◌, ◌<◌, ◌^◌, ◌≡◌, refl, subst, arith, Bool, true, false, ◌&&◌, ltb, leb,
  List, [], ◌∷◌, get_elem?, length, Option, none, some,
}
use my_ceph.Common.{ℤ, pos, negsuc}
use my_ceph.CrushMap.{CrushMap, CrushBucketStraw2}
use my_ceph.Mapper.Turn.Total.{IsNode, IsHierarchy}

abbrev pub level : CrushBucketStraw2 → ℕ
level b = b.h.type

unfoldable pub all {ℓ} : {A : Type ℓ} → (A → Bool) → List A → Bool
all p [] = true
all p (x ∷ xs) = p x && all p xs

all_at {ℓ} :
    {A : Type ℓ} (p : A → Bool) (xs : List A) (i : ℕ) {x : A}
    → all p xs ≡ true
    → get_elem? xs i ≡ some x
    → p x ≡ true
unfolding all
all_at p [] i h e = absurd (cc)
all_at p (x ∷ xs) zero h e = subst (λ t. p t ≡ true) (some-inj e) (first (p x) (all p xs) h)
  where
    first : (a b : Bool) → (a && b) ≡ true → a ≡ true
    first a b h = ground arith
all_at p (x ∷ xs) (suc i) h e = all_at p xs i (rest (p x) (all p xs) h) e
  where
    rest : (a b : Bool) → (a && b) ≡ true → b ≡ true
    rest a b h = ground arith

-- A device, or a bucket of the map on a lower level.
is_lower : ℕ → Option CrushBucketStraw2 → Bool
is_lower n none = false
is_lower n (some c) = ltb (level c) n

item_ok : CrushMap → CrushBucketStraw2 → ℤ → Bool
item_ok m b (pos n) = true
item_ok m b (negsuc n) = is_lower (level b) (get_elem? m.buckets n)

bucket_ok : CrushMap → ℕ → CrushBucketStraw2 → Bool
bucket_ok m top b =
    ltb 0 b.h.size
    && (leb b.h.size (length b.h.items)
        && (leb b.h.size (length b.item_weights)
            && (all (λ w. ltb w (2 ^ 31)) b.item_weights
                && (all (item_ok m b) b.h.items && (ltb 0 b.h.type && leb (level b) top)))))

unfoldable pub map_ok : CrushMap → ℕ → Bool
unfolding all is_lower item_ok bucket_ok
map_ok m top = all (bucket_ok m top) m.buckets

record Parts (m : CrushMap) (top : ℕ) (b : CrushBucketStraw2) : Type 0 where
  nonempty : 0 < b.h.size
  items_in : b.h.size ≤ length b.h.items
  weights_in : b.h.size ≤ length b.item_weights
  light : all (λ w. ltb w (2 ^ 31)) b.item_weights ≡ true
  lower : all (item_ok m b) b.h.items ≡ true
  typed : 0 < b.h.type
  low : level b ≤ top

bucket_ok_parts :
    (m : CrushMap) (top : ℕ) (b : CrushBucketStraw2) → bucket_ok m top b ≡ true → Parts m top b
unfolding bucket_ok
bucket_ok_parts m top b h = ground arith

is_lower_sound :
    (n : ℕ) (o : Option CrushBucketStraw2)
    → is_lower n o ≡ true
    → (c : CrushBucketStraw2) × (o ≡ some c) × (level c < n)
unfolding is_lower
is_lower_sound n none h = absurd (cc)
is_lower_sound n (some c) h = (c, refl, ground arith)

parts-IsNode : (m : CrushMap) (top : ℕ) (b : CrushBucketStraw2) → Parts m top b → IsNode m level b
unfolding item_ok
parts-IsNode m top b p = record {
  sound = λ h. record {
    nonempty = p.nonempty;
    items_in = p.items_in;
    weights_in = p.weights_in;
    light = λ i w e. small w (all_at (λ w. ltb w (2 ^ 31)) b.item_weights i p.light e);
  };
  below = λ i n lt e.
      is_lower_sound (level b) (get_elem? m.buckets n) (all_at (item_ok m b) b.h.items i p.lower e);
}
  where
    small : (w : ℕ) → ltb w (2 ^ 31) ≡ true → w < 2 ^ 31
    small w h = ground arith

-- What the test says of every bucket of the map.
pub record IsBuilt (m : CrushMap) (top : ℕ) : Type 0 where
  pub tree : IsHierarchy m level
  pub low : (n : ℕ) (c : CrushBucketStraw2) → get_elem? m.buckets n ≡ some c → level c ≤ top

pub map_ok_sound : (m : CrushMap) (top : ℕ) → map_ok m top ≡ true → IsBuilt m top
unfolding map_ok
map_ok_sound m top h = record {
  tree = record {
    nodes = λ n c e. parts-IsNode m top c (parts n c e);
    typed = λ n c e z. absurd (omega (arith, (parts n c e).typed));
  };
  low = λ n c e. (parts n c e).low;
}
  where
    parts : (n : ℕ) (c : CrushBucketStraw2) → get_elem? m.buckets n ≡ some c → Parts m top c
    parts n c e = bucket_ok_parts m top c (all_at (bucket_ok m top) m.buckets n h e)
