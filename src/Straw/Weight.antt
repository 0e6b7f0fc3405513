-- ===== src/Straw/Weight.antt =====
-- Raising the weight of one item moves choices to that item only.
use my_ceph.Common.{
  ℕ, ◌≤◌, ◌<◌, ◌^◌, ◌≡◌, ◌≢◌, sym, ap, ◌∙◌, arith, ◌⊎◌, inl, inr, ℕ_discrete, get_elem?, set,
  length-set, get_elem?-set_self, get_elem?-set_ne, none, some,
}
use my_ceph.Common.{ℤ, pattern32, ◌≤ℤ◌, pos_part, neg_part, ok}
use my_ceph.CrushMap.{CrushBucketStraw2}
use my_ceph.Straw.{straw2_draw, s64_min, bucket_straw2_choose}
use my_ceph.Straw.Draw.{distance_of, neg_gap_mono}
use my_ceph.Straw.Best.{IsBest_raise}
use my_ceph.Straw.Choose.{
  IsBucket, value_of, straw, draw-zero, draw-pos, straw-above-min, bucket_straw2_choose-IsBest,
  get_elem?-some,
}

-- The bucket with another weight for item `k`.
abbrev pub reweigh : CrushBucketStraw2 → ℕ → ℕ → CrushBucketStraw2
reweigh b k w = record b { item_weights = set b.item_weights k w }

module _ (b : CrushBucketStraw2) (k w w' : ℕ) (v : IsBucket b)
    (ek : get_elem? b.item_weights k ≡ some w) (lt : k < b.h.size) (le : w ≤ w')
    (fits : w' < 2 ^ 31) where
  light' : (i u : ℕ) → get_elem? (set b.item_weights k w') i ≡ some u → u < 2 ^ 31
  light' i u e = elim (ℕ_discrete k i) [
    | yes q ↦ grind (arith, at_k, q)
    | no ne ↦ v.light i u (sym (get_elem?-set_ne b.item_weights w' ne) ∙ e)
  ]
    where
      at_k : get_elem? (set b.item_weights k w') k ≡ some w'
      at_k = get_elem?-set_self b.item_weights k w' (omega (arith, v.weights_in))

  reweigh-IsBucket : IsBucket (reweigh b k w')
  reweigh-IsBucket = record {
    nonempty = v.nonempty;
    items_in = v.items_in;
    weights_in = omega (arith, v.weights_in, length-set b.item_weights k w');
    light = light';
  }

  new_weight : get_elem? (set b.item_weights k w') k ≡ some w'
  new_weight = get_elem?-set_self b.item_weights k w' (omega (arith, v.weights_in))

  straw_same : (x r j : ℕ) → j ≢ k → straw (reweigh b k w') x r j ≡ straw b x r j
  unfolding straw2_draw
  straw_same x r j ne = rw (get_elem?-set_ne b.item_weights {i = k} {j = j} w' (λ e. ne (sym e)))

  least : (x r : ℕ) → s64_min ≤ℤ straw (reweigh b k w') x r k
  least x r = elim (ℕ_discrete w' 0) [
    | yes z ↦ rw (draw-zero (reweigh b k w') x r k (new_weight ∙ ap some z)) (omega arith)
    | no nz ↦
        omega (arith, straw-above-min (reweigh b k w') x r k w' reweigh-IsBucket lt new_weight nz)
  ]

  straw_raised : (x r : ℕ) → straw b x r k ≤ℤ straw (reweigh b k w') x r k
  straw_raised x r = elim (ℕ_discrete w 0) [
    | yes z ↦ omega (
      arith,
      ap pos_part (ap value_of (draw-zero b x r k (ek ∙ ap some z))),
      ap neg_part (ap value_of (draw-zero b x r k (ek ∙ ap some z))),
      least x r,
    )
    | no nz ↦
        let (id, ei) = get_elem?-some b.h.items k (omega (arith, v.items_in)) in
        let (gap, g) = distance_of b.h.hash x (pattern32 id) r in
        let e = draw-pos b x r k w id gap ek ei g (omega arith) (omega arith) in
        let e' = draw-pos (reweigh b k w') x r k w' id gap new_weight ei g (omega arith) fits in
        rw (e, e') (neg_gap_mono gap w w' (omega arith) le)
  ]

  -- Give item `k` of a sound bucket a weight that is no smaller than its old one and below 2^31:
  -- without a `choose_args` entry, both choices come to a value, and the new one is the old one or
  -- item `k`.
  pub bucket_straw2_choose_raise :
      (x r position : ℕ)
      → (item : ℤ) × (item' : ℤ) × (bucket_straw2_choose b x r none position ≡ ok item)
        × (bucket_straw2_choose (reweigh b k w') x r none position ≡ ok item')
        × ((item' ≡ item) ⊎ (get_elem? b.h.items k ≡ some item'))
  bucket_straw2_choose_raise x r position =
      let (h, item, e, ei, best) = bucket_straw2_choose-IsBest b x r position v in
      let (h', item', e', ei', best') =
        bucket_straw2_choose-IsBest (reweigh b k w') x r position reweigh-IsBucket in
      (
        item,
        item',
        e,
        e',
        moved h h' ei ei' (IsBest_raise k (straw_same x r) (straw_raised x r) best best'),
      )
    where
      moved :
          (h h' : ℕ) {item item' : ℤ}
          → get_elem? b.h.items h ≡ some item
          → get_elem? b.h.items h' ≡ some item'
          → (h' ≡ h) ⊎ (h' ≡ k)
          → (item' ≡ item) ⊎ (get_elem? b.h.items k ≡ some item')
      moved h h' ei ei' (inl stays) = inl (cc (ap (get_elem? b.h.items) stays))
      moved h h' ei ei' (inr moves) = inr (sym (ap (get_elem? b.h.items) moves) ∙ ei')
