-- ===== src/Mapper/Turn/Returns.antt =====
-- A turn that is set up returns, and goes on in a bounded way.
use my_ceph.Common.{
  ℕ, ◌+◌, ◌<◌, ◌==◌, ◌≡◌, ◌≢◌, refl, sym, subst, arith, Bool, true, false, not, ◌&&◌, ◌||◌,
  if◌then◌else◌, List, none, some, get_elem?, Bool-cases, leb, u32, inl, inr,
}
use my_ceph.Common.{ℤ, pos, negsuc, ltb_ℤ, ok}
use my_ceph.CrushMap.{CrushBucketStraw2}
use my_ceph.Straw.{crush_bucket_choose}
use my_ceph.Straw.Choose.{bucket_straw2_choose-IsBest}
use my_ceph.Mapper.Memory.{Mem}
use my_ceph.Mapper.Memory.Shape.{shape, Room}
use my_ceph.Mapper.Turn.{
  Attempt, descend_into, skip_rep, take_item, bucket_at, item_type, on_reject, turn_found,
  turn_inner, turn_item, turn, choose_arg_of,
}
use my_ceph.Mapper.Turn.Total.{
  IsNode, IsSetUp, Ends, ItemIn, rejected, leaf_or_not_total, out_or_not_total, collides_total,
}

module _ {height : CrushBucketStraw2 → ℕ} {sh : List ℕ} (a : Attempt) (s : IsSetUp height sh a)
    (b : CrushBucketStraw2) (ft fl : ℕ) where
  skipped :
      (item : ℤ) (mem : Mem) → shape mem ≡ sh → Ends height sh a b ft fl (ok (skip_rep item mem))
  skipped item mem e = record {
    result = skip_rep item mem;
    returned = refl;
    shaped = e;
    bounded = tt;
  }

  taken :
      (item : ℤ) (mem : Mem) → shape mem ≡ sh → Ends height sh a b ft fl (ok (take_item item mem))
  taken item mem e = record {
    result = take_item item mem;
    returned = refl;
    shaped = e;
    bounded = tt;
  }

  taken_or_rejected :
      (t collide : Bool) (item : ℤ) (mem : Mem)
      → shape mem ≡ sh
      → Ends height sh a b ft fl (
          ok (
            if t
            then on_reject a b collide (u32 (ft + 1)) (u32 (fl + 1)) item mem
            else take_item item mem))
  taken_or_rejected true collide item mem e = rejected a s b ft fl collide item mem e
  taken_or_rejected false collide item mem e = taken item mem e

  turn_found_total :
      (itemtype r : ℕ) (item : ℤ) (mem : Mem)
      → ItemIn a s b ft fl item
      → item_type a.map item ≡ ok itemtype
      → shape mem ≡ sh
      → Ends height sh a b ft fl (turn_found a b itemtype r ft fl item mem)
  unfolding turn_found
  turn_found_total itemtype r item mem i ty e =
      let (collide, ec) =
        collides_total mem a.out item a.outpos 0 a.outpos
          (subst (λ t. Room t a.out a.outpos) (sym e) s.room) (omega arith) in
      let (reject, mem', el, e') =
        leaf_or_not_total a s b ft fl (not collide && not (a.recurse_to_leaf == 0)) item r mem
          (recursing collide) i e in
      let (reject', eo) =
        out_or_not_total a s b ft fl item itemtype (not reject && not collide) reject i ty in
      rw (ec, el, eo) (taken_or_rejected (reject' || collide) collide item mem' e')
    where
      recursing :
          (c : Bool) → (not c && not (a.recurse_to_leaf == 0)) ≡ true → a.recurse_to_leaf ≢ 0
      recursing c h z = absurd (ground arith)

  pub turn_inner_total :
      (item : ℤ) (mem : Mem)
      → ItemIn a s b ft fl item
      → shape mem ≡ sh
      → Ends height sh a b ft fl (turn_inner a item mem)
  unfolding turn_inner bucket_at
  turn_inner_total (pos n) mem i e = skipped (pos n) mem e
  turn_inner_total (negsuc n) mem (c, ec, lt) e = elim (Bool-cases (leb a.map.max_buckets n)) [
    | inl out ↦ rw out (skipped (negsuc n) mem e)
    | inr inside ↦
        rw (inside, ec)
          (record {
            result = descend_into c (negsuc n) mem;
            returned = refl;
            shaped = e;
            bounded = (s.tree.nodes n c ec, lt);
          })
  ]

  pub item_type_total :
      (item : ℤ) → ItemIn a s b ft fl item → (t : ℕ) × (item_type a.map item ≡ ok t)
  unfolding item_type bucket_at
  item_type_total (pos n) i = (0, refl)
  item_type_total (negsuc n) (c, ec, lt) = (c.h.type, rw ec)

  turn_item_total :
      (r : ℕ) (item : ℤ) (mem : Mem)
      → ItemIn a s b ft fl item
      → shape mem ≡ sh
      → Ends height sh a b ft fl (turn_item a b r ft fl item mem)
  unfolding turn_item
  turn_item_total r item mem i e = elim (Bool-cases (ltb_ℤ item a.map.max_devices)) [
    | inl lt ↦
        let (itemtype, ty) = item_type_total item i in
        elim (Bool-cases (itemtype == a.type)) [
          | inl same ↦ rw (lt, ty, same) (turn_found_total itemtype r item mem i ty e)
          | inr other ↦ rw (lt, ty, other) (turn_inner_total item mem i e)
        ]
    | inr ge ↦ rw ge (skipped item mem e)
  ]

  pub item_in :
      IsNode a.map height b
      → (i : ℕ) (item : ℤ) → i < b.h.size
      → get_elem? b.h.items i ≡ some item
      → ItemIn a s b ft fl item
  item_in node i (pos n) lt e = tt
  item_in node i (negsuc n) lt e = node.below i n lt e

  pub choose_arg_none : choose_arg_of a.choose_args b.h.id ≡ ok none
  unfolding choose_arg_of
  choose_arg_none = rw s.no_args

  -- A turn at a bucket of the hierarchy returns, leaves the lengths of the arrays, and goes on at a
  -- lower bucket, within the local retries, or within the tries, if it goes on.
  pub turn-Ends :
      (item : ℤ) (mem : Mem)
      → IsNode a.map height b
      → shape mem ≡ sh
      → Ends height sh a b ft fl (turn a b ft fl item mem)
  unfolding turn crush_bucket_choose
  turn-Ends item mem node e = elim (Bool-cases (b.h.size == 0)) [
    | inl empty ↦ rw empty (rejected a s b ft fl false item mem e)
    | inr filled ↦
        let (high, chosen, ec, ei, best) =
          bucket_straw2_choose-IsBest b a.x (u32 (a.r0 + ft)) a.position
            (node.sound (ground arith)) in
        rw (filled, choose_arg_none, ec)
          (turn_item_total (u32 (a.r0 + ft)) chosen mem (item_in node high chosen best.in_range ei)
            e)
  ]
