-- ===== src/Straw/Choose.antt =====
-- `bucket_straw2_choose` on a bucket whose arrays hold its items, without a `choose_args` entry.
use native.Mathlib.Nat.{div-le_self, le_trans}
use my_ceph.Common.{
  ℕ, zero, suc, ◌/◌, ◌^◌, ◌≤◌, ◌<◌, ◌==◌, ◌≡◌, ◌≢◌, refl, ap, ◌∙◌, arith, ℕ_discrete, List, [], ◌∷◌,
  get_elem?, length, none, some, false,
}
use my_ceph.Common.{ℤ, pos, neg_ℕ, pattern32, ◌<ℤ◌, pos_part, neg_part}
use my_ceph.Common.{Outcome, ok, fault, out_of_fuel}
use my_ceph.CrushMap.{CrushBucketStraw2}
use my_ceph.Straw.{straw2_draw, s64_min, bucket_straw2_choose}
use my_ceph.Straw.{get_choose_arg_ids, get_choose_arg_weights}
use my_ceph.Straw.Draw.{Gap, distance_of}
use my_ceph.Straw.Best.{IsBest, straw2_loop-IsBest}

-- The bucket holds at least one item, its arrays are as long as its size says, and no weight is
-- negative as an `int`.
pub record IsBucket (b : CrushBucketStraw2) : Type 0 where
  pub nonempty : 0 < b.h.size
  pub items_in : b.h.size ≤ length b.h.items
  pub weights_in : b.h.size ≤ length b.item_weights
  pub light : (i w : ℕ) → get_elem? b.item_weights i ≡ some w → w < 2 ^ 31

pub get_elem?-some {ℓ} :
    {A : Type ℓ} (xs : List A) (i : ℕ) → i < length xs → (a : A) × (get_elem? xs i ≡ some a)
get_elem?-some [] i h = absurd (omega arith)
get_elem?-some (x ∷ xs) zero h = (x, refl)
get_elem?-some (x ∷ xs) (suc i) h = get_elem?-some xs i (omega arith)

-- The value of a run that has one.
abbrev pub value_of : Outcome ℤ → ℤ
value_of (ok d) = d
value_of _ = pos 0

value_of-ok : (m : Outcome ℤ) {d : ℤ} → m ≡ ok d → m ≡ ok (value_of m)
value_of-ok (ok d) h = refl
value_of-ok fault h = cc
value_of-ok out_of_fuel h = cc

above : (n : ℕ) → n ≤ 2 ^ 48 → s64_min <ℤ neg_ℕ n
above n h = ground arith

module _ (b : CrushBucketStraw2) (x r : ℕ) where
  abbrev pub draw : ℕ → Outcome ℤ
  draw i = straw2_draw b.h.hash b.item_weights b.h.items x r i

  -- The straw of item `i`.
  abbrev pub straw : ℕ → ℤ
  straw i = value_of (draw i)

  pub draw-zero : (i : ℕ) → get_elem? b.item_weights i ≡ some 0 → draw i ≡ ok s64_min
  unfolding straw2_draw
  draw-zero i e = rw e

  pub draw-pos :
      (i w : ℕ) (id : ℤ) (gap : ℕ)
      → get_elem? b.item_weights i ≡ some w
      → get_elem? b.h.items i ≡ some id
      → Gap b.h.hash x (pattern32 id) r gap
      → 0 < w
      → w < 2 ^ 31
      → draw i ≡ ok (neg_ℕ (gap / w))
  unfolding straw2_draw
  draw-pos i w id gap ew ei g p q = rw (ew, nonzero, ei) (g.draws w q)
    where
      nonzero : (w == 0) ≡ false
      nonzero = ground arith

  pub draw_total : IsBucket b → (i : ℕ) → i < b.h.size → draw i ≡ ok (straw i)
  draw_total v i lt =
      let (w, ew) = get_elem?-some b.item_weights i (omega (arith, v.weights_in)) in
      let (id, ei) = get_elem?-some b.h.items i (omega (arith, v.items_in)) in
      elim (ℕ_discrete w 0) [
        | yes z ↦ value_of-ok (draw i) (draw-zero i (ew ∙ ap some z))
        | no nz ↦
            let (gap, g) = distance_of b.h.hash x (pattern32 id) r in
            value_of-ok (draw i) (draw-pos i w id gap ew ei g (omega arith) (v.light i w ew))
      ]

  -- Of a bucket that is sound (`IsBucket`), without a `choose_args` entry, the choice comes to a
  -- value: the item at the first index whose straw is longest.
  pub bucket_straw2_choose-IsBest :
      (position : ℕ)
      → IsBucket b
      → (high : ℕ) × (item : ℤ) × (bucket_straw2_choose b x r none position ≡ ok item)
        × (get_elem? b.h.items high ≡ some item)
        × IsBest straw b.h.size high
  unfolding bucket_straw2_choose get_choose_arg_weights get_choose_arg_ids
  bucket_straw2_choose-IsBest position v =
      let (high, e, best) = straw2_loop-IsBest draw straw b.h.size v.nonempty (draw_total v) in
      let (item, ei) = get_elem?-some b.h.items high (omega (arith, best.in_range, v.items_in)) in
      (high, item, rw (e, ei), ei, best)

  pub straw-above-min :
      (i w : ℕ)
      → IsBucket b
      → i < b.h.size
      → get_elem? b.item_weights i ≡ some w
      → w ≢ 0
      → s64_min <ℤ straw i
  straw-above-min i w v lt ew nz =
      let (id, ei) = get_elem?-some b.h.items i (omega (arith, v.items_in)) in
      let (gap, g) = distance_of b.h.hash x (pattern32 id) r in
      let e = draw-pos i w id gap ew ei g (omega arith) (v.light i w ew) in
      rw e (above (gap / w) (le_trans (div-le_self gap w) g.small))

  -- Of a bucket that is sound (`IsBucket`) and holds an item whose weight is not 0, without a
  -- `choose_args` entry, an item whose weight is not 0 is chosen.
  pub bucket_straw2_choose_weighted :
      (position j wj : ℕ)
      → IsBucket b
      → j < b.h.size
      → get_elem? b.item_weights j ≡ some wj
      → wj ≢ 0
      → (high : ℕ) × (w : ℕ) × (item : ℤ) × (bucket_straw2_choose b x r none position ≡ ok item)
        × (get_elem? b.h.items high ≡ some item)
        × (get_elem? b.item_weights high ≡ some w)
        × (w ≢ 0)
  bucket_straw2_choose_weighted position j wj v lt ej nz =
      let (high, item, e, ei, best) = bucket_straw2_choose-IsBest position v in
      let (w, ew) =
        get_elem?-some b.item_weights high (omega (arith, best.in_range, v.weights_in)) in
      (
        high,
        w,
        item,
        e,
        ei,
        ew,
        λ z. absurd (
            omega (
              arith,
              straw-above-min j wj v lt ej nz,
              best.longest j lt,
              ap pos_part (low high (ew ∙ ap some z)),
              ap neg_part (low high (ew ∙ ap some z)),
            )),
      )
    where
      low : (i : ℕ) → get_elem? b.item_weights i ≡ some 0 → straw i ≡ s64_min
      low i e0 = ap value_of (draw-zero i e0)
