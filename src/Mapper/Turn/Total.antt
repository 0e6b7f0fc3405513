-- ===== src/Mapper/Turn/Total.antt =====
-- On a map that is a hierarchy, with arrays that are large enough, a turn never reads or writes
-- outside an array, and every way to go on is bounded.
use my_ceph.Common.{
  ◌^◌, ℕ, zero, suc, ◌+◌, ◌≤◌, ◌<◌, ◌==◌, ◌≡◌, ◌≢◌, refl, sym, ap, ◌∙◌, subst, arith, Bool, true,
  false, ◌&&◌, if◌then◌else◌, List, none, some, get_elem?, length, inl, inr, Bool-cases, leb, ltb,
  u32,
}
use my_ceph.Common.{ℤ, pos, negsuc, eqb_ℤ, Outcome, ok}
use my_ceph.CrushMap.{CrushMap, CrushBucketStraw2}
use my_ceph.Straw.Choose.{IsBucket, get_elem?-some}
use my_ceph.Mapper.Memory.{Mem, Pointer}
use my_ceph.Mapper.Memory.Shape.{shape, Room, read_total, write_total}
use my_ceph.Mapper.Turn.{
  Attempt, Turn, descend_into, retry_bucket, retry_descent, skip_rep, take_item, is_out, bucket_at,
  item_type, collides, sub_r, on_reject, leaf_step,
}
use my_ceph.Mapper.Turn.Accept.{mem_of, on_reject-mem}

-- A bucket of a hierarchy: its type is not that of a device, its arrays hold its items, and each
-- bucket among its items is in the map and lower.
pub record IsNode (m : CrushMap) (height : CrushBucketStraw2 → ℕ) (b : CrushBucketStraw2)
    : Type 0 where
  pub sound : 0 < b.h.size → IsBucket b
  pub below :
      (i n : ℕ)
      → i < b.h.size
      → get_elem? b.h.items i ≡ some (negsuc n)
      → (c : CrushBucketStraw2) × (get_elem? m.buckets n ≡ some c) × (height c < height b)

pub record IsHierarchy (m : CrushMap) (height : CrushBucketStraw2 → ℕ) : Type 0 where
  pub nodes : (n : ℕ) (c : CrushBucketStraw2) → get_elem? m.buckets n ≡ some c → IsNode m height c
  pub typed : (n : ℕ) (c : CrushBucketStraw2) → get_elem? m.buckets n ≡ some c → c.h.type ≢ 0

-- What an attempt needs: a hierarchy, the reweights of all devices, no `choose_args`, no fallback
-- retries, room for the results, and a recursive call that returns.
pub record IsSetUp (height : CrushBucketStraw2 → ℕ) (sh : List ℕ) (a : Attempt) : Type 0 where
  pub tree : IsHierarchy a.map height
  pub weights : a.weight_max ≤ length a.weight
  pub no_args : a.choose_args ≡ none
  pub no_fallback : a.local_fallback_retries ≡ 0
  pub room : Room sh a.out a.outpos
  pub room2 : a.recurse_to_leaf ≢ 0 → Room sh a.out2 (suc a.outpos)
  pub leaf_returns :
      a.recurse_to_leaf ≢ 0
      → (n : ℕ) (b : CrushBucketStraw2) (s : ℕ) (mem : Mem) → get_elem? a.map.buckets n ≡ some b
      → shape mem ≡ sh
      → (p : ℕ) × (mem' : Mem) × (a.leaf b s mem ≡ ok (p, mem')) × (shape mem' ≡ sh)

-- The counters of a replica do not come to 2^32.
abbrev pub CountsFit : ℕ → ℕ → Type 0
CountsFit tries retries = tries + retries + 1 < 2 ^ 32

-- How a turn goes on is bounded.
abbrev pub Bounded : (CrushBucketStraw2 → ℕ) → Attempt → CrushBucketStraw2 → ℕ → ℕ → Turn → Type 0
Bounded height a b ft fl (descend_into c item mem) = IsNode a.map height c × (height c < height b)
Bounded height a b ft fl (retry_bucket item mem) = u32 (fl + 1) ≤ a.local_retries
Bounded height a b ft fl (retry_descent item mem) = u32 (ft + 1) < a.tries
Bounded height a b ft fl (skip_rep item mem) = Unit {0}
Bounded height a b ft fl (take_item item mem) = Unit {0}

-- A turn that came to its end.
pub record Ends (height : CrushBucketStraw2 → ℕ) (sh : List ℕ) (a : Attempt) (b : CrushBucketStraw2)
    (ft fl : ℕ) (m : Outcome Turn) : Type 0 where
  pub result : Turn
  pub returned : m ≡ ok result
  pub shaped : shape (mem_of result) ≡ sh
  pub bounded : Bounded height a b ft fl result

is_out_total :
    (weight : List ℕ) (weight_max n x : ℕ)
    → weight_max ≤ length weight
    → (t : Bool) × (is_out weight weight_max (pos n) x ≡ ok t)
unfolding is_out
is_out_total weight weight_max n x le = elim (Bool-cases (leb weight_max n)) [
  | inl out ↦ (true, rw out)
  | inr inside ↦ let (w, ew) = get_elem?-some weight n (ground arith) in rw (inside, ew) (_, refl)
]

pub collides_total :
    (mem : Mem) (out : Pointer) (item : ℤ) (rounds i n : ℕ)
    → Room (shape mem) out n
    → i + rounds ≤ n
    → (c : Bool) × (collides mem out rounds i item ≡ ok c)
unfolding collides
collides_total mem out item zero i n r le = (false, refl)
collides_total mem out item (suc rounds) i n r le =
    let (v, ev) = read_total mem out n i r (omega arith) in
    elim (Bool-cases (eqb_ℤ v item)) [
      | inl hit ↦ (true, rw (ev, hit))
      | inr miss ↦
          let (c, ec) = collides_total mem out item rounds (i + 1) n r (omega arith) in
          (c, rw (ev, miss) ec)
    ]

module _ {height : CrushBucketStraw2 → ℕ} {sh : List ℕ} (a : Attempt) (s : IsSetUp height sh a)
    (b : CrushBucketStraw2) (ft fl : ℕ) where
  -- A device, or a bucket of the map that is lower.
  abbrev pub ItemIn : ℤ → Type 0
  ItemIn (pos n) = Unit {0}
  ItemIn (negsuc n) =
      (c : CrushBucketStraw2) × (get_elem? a.map.buckets n ≡ some c) × (height c < height b)

  fallback_off : (n : ℕ) → (ltb 0 a.local_fallback_retries && leb (u32 (fl + 1)) n) ≡ false
  fallback_off n = ground (arith, s.no_fallback)

  on_reject-Bounded :
      (collide : Bool) (item : ℤ) (mem : Mem)
      → Bounded height a b ft fl (on_reject a b collide (u32 (ft + 1)) (u32 (fl + 1)) item mem)
  unfolding on_reject
  on_reject-Bounded collide item mem =
      rw (fallback_off (u32 (b.h.size + a.local_fallback_retries))) (
        choice (collide && leb (u32 (fl + 1)) a.local_retries) (ltb (u32 (ft + 1)) a.tries)
          (ground arith) (ground arith))
    where
      choice :
          (p q : Bool)
          → (p ≡ true → u32 (fl + 1) ≤ a.local_retries)
          → (q ≡ true → u32 (ft + 1) < a.tries)
          → Bounded height a b ft fl (
              if p
              then retry_bucket item mem
              else if false
              then retry_bucket item mem
              else if q
              then retry_descent item mem
              else skip_rep item mem)
      choice true q f g = f refl
      choice false true f g = g refl
      choice false false f g = tt

  pub rejected :
      (collide : Bool) (item : ℤ) (mem : Mem)
      → shape mem ≡ sh
      → Ends height sh a b ft fl (ok (on_reject a b collide (u32 (ft + 1)) (u32 (fl + 1)) item mem))
  rejected collide item mem e = record {
    result = on_reject a b collide (u32 (ft + 1)) (u32 (fl + 1)) item mem;
    returned = refl;
    shaped = ap shape (on_reject-mem a b collide (u32 (ft + 1)) (u32 (fl + 1)) item mem) ∙ e;
    bounded = on_reject-Bounded collide item mem;
  }

  leaf_step_total :
      (item : ℤ) (r : ℕ) (mem : Mem)
      → a.recurse_to_leaf ≢ 0
      → ItemIn item
      → shape mem ≡ sh
      → (t : Bool) × (mem' : Mem) × (leaf_step a item r mem ≡ ok (t, mem')) × (shape mem' ≡ sh)
  unfolding leaf_step bucket_at
  leaf_step_total (pos n) r mem rec i e =
      let (mem', w, e') =
        write_total mem a.out2 (suc a.outpos) a.outpos (pos n)
          (subst (λ t. Room t a.out2 (suc a.outpos)) (sym e) (s.room2 rec)) (omega arith) in
      (false, mem', rw w, e' ∙ e)
  leaf_step_total (negsuc n) r mem rec (c, ec, lt) e =
      let (p, mem', w, e') = s.leaf_returns rec n c (sub_r a.vary_r r) mem ec e in
      (leb p a.position, mem', rw (ec, w), e')

  pub leaf_or_not_total :
      (t : Bool) (item : ℤ) (r : ℕ) (mem : Mem)
      → (t ≡ true → a.recurse_to_leaf ≢ 0)
      → ItemIn item
      → shape mem ≡ sh
      → (u : Bool) × (mem' : Mem) × ((if t then leaf_step a item r mem else ok (false, mem))
          ≡ ok (u, mem'))
        × (shape mem' ≡ sh)
  leaf_or_not_total true item r mem rec i e = leaf_step_total item r mem (rec refl) i e
  leaf_or_not_total false item r mem rec i e = (false, mem, refl, e)

  -- The item is a device if its type says so.
  pub out_or_not_total :
      (item : ℤ) (itemtype : ℕ) (t u : Bool)
      → ItemIn item
      → item_type a.map item ≡ ok itemtype
      → (v : Bool) × ((if t && itemtype == 0 then is_out a.weight a.weight_max item a.x else ok u)
          ≡ ok v)
  unfolding item_type bucket_at
  out_or_not_total (pos n) itemtype false u i e = (u, refl)
  out_or_not_total (pos n) itemtype true u i e =
      let (v, ev) = is_out_total a.weight a.weight_max n a.x s.weights in
      elim (Bool-cases (itemtype == 0)) [ inl z ↦ (v, rw z ev) | inr nz ↦ (u, rw nz) ]
  out_or_not_total (negsuc n) itemtype false u i e = (u, refl)
  out_or_not_total (negsuc n) itemtype true u (c, ec, lt) e = (u, rw (bucket_type (rw ec at e)))
    where
      bucket_type : ◌≡◌ {A = Outcome ℕ} (ok c.h.type) (ok itemtype) → (itemtype == 0) ≡ false
      bucket_type k = ground (arith, s.tree.typed n c ec)
