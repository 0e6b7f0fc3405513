-- ===== src/Build/Weights.antt =====
-- The weights of the buckets that `construct_root` builds, and how much room it needs.
use native.Mathlib.Nat.{mod-mod, add-mod-mod}
use my_ceph.Common.{
  ℕ, zero, suc, ◌+◌, ◌*◌, ◌^◌, ◌≤◌, ◌≡◌, refl, sym, ap, subst, ◌∙◌, arith, List, length, set,
  length-set, some, u32, ℤ, negsuc, Outcome, ok,
}
use my_ceph.CrushMap.{CrushBucketStraw2}
use my_ceph.Build.{
  Builder, Parts, no_parts, add_part, straw2_bucket, host_osd_nums, construct_host, child_loop,
  construct_rack, construct_root,
}
use my_ceph.Build.Host.{
  total_weight, left_zero, right_zero, total_weight-add, u32-add, Heavier, Builds, Fits,
  store_bucket_total, construct_host-Builds,
}

-- What the loop over the children comes to.
record Adds (weight : List ℕ) (p : Parts) (devices below : ℕ) (s : Builder)
    (r : Outcome (Parts × Builder)) : Type 0 where
  parts : Parts
  after : Builder
  returned : r ≡ ok (parts, after)
  heavier : Heavier p parts (total_weight weight s.osd_id devices)
  osd_id : after.osd_id ≡ s.osd_id + devices
  bucket_id : after.bucket_id ≡ s.bucket_id + below
  room : length after.buckets ≡ length s.buckets

zero_mul : (d : ℕ) → 0 * d ≡ 0
zero_mul d = omega arith

suc_mul : (n d : ℕ) → suc n * d ≡ d + n * d
suc_mul n d = omega arith

module _ (weight : List ℕ) (construct : ℤ → Builder → Outcome (CrushBucketStraw2 × Builder))
    (d k : ℕ)
    (spec : (id : ℤ) (s : Builder) → Fits weight d k s → Builds weight d k s (construct id s)) where
  Heavier-weights :
      (p q : Parts) (item : ℤ) (c i n : ℕ)
      → c ≡ u32 (total_weight weight i d)
      → Heavier (add_part p item c) q (total_weight weight (i + d) n)
      → Heavier p q (total_weight weight i (d + n))
  unfolding add_part
  Heavier-weights p q item c i n e heavier h =
      let (sum, word) = heavier (sym (mod-mod (p.weight + c) (2 ^ 32))) in
      (
        sum
            ∙ ap (λ (m : ℕ). u32 (m + total_weight weight (i + d) n))
                (ap (λ (m : ℕ). u32 (p.weight + m)) e
                  ∙ add-mod-mod p.weight (total_weight weight i d) (2 ^ 32))
            ∙ u32-add p.weight (total_weight weight i d) (total_weight weight (i + d) n)
            ∙ ap (λ (m : ℕ). u32 (p.weight + m)) (sym (total_weight-add weight i d n)),
        word,
      )

  child_loop-Adds :
      (rounds : ℕ) (p : Parts) (s : Builder)
      → Fits weight (rounds * d) (rounds * suc k) s
      → Adds weight p (rounds * d) (rounds * suc k) s (child_loop construct rounds p s)
  unfolding child_loop total_weight
  child_loop-Adds zero p s fits = record {
    parts = p;
    after = s;
    returned = refl;
    heavier = λ h. (rw (zero_mul d, right_zero p.weight) h, h);
    osd_id = omega (arith, zero_mul d);
    bucket_id = omega (arith, zero_mul (suc k));
    room = refl;
  }
  child_loop-Adds (suc rounds) p s (le, room) =
      let b =
        spec (negsuc s.bucket_id) (record s { bucket_id = s.bucket_id + 1 })
          (omega (arith, suc_mul rounds d), omega (arith, suc_mul rounds (suc k))) in
      let stored =
        store_bucket_total b.after s.bucket_id b.bucket
          (omega (arith, b.room, suc_mul rounds (suc k))) in
      let s2 = record b.after { buckets = set b.after.buckets s.bucket_id (some b.bucket) } in
      let same = length-set b.after.buckets s.bucket_id (some b.bucket) in
      let rest = child_loop-Adds rounds (add_part p (negsuc s.bucket_id) b.bucket.h.weight) s2 (
        omega (arith, b.osd_id, suc_mul rounds d),
        omega (arith, b.room, b.bucket_id, same, suc_mul rounds (suc k)),
      ) in
      record {
        parts = rest.parts;
        after = rest.after;
        returned = rw (b.returned, stored) rest.returned;
        heavier =
            subst (λ (n : ℕ). Heavier p rest.parts (total_weight weight s.osd_id n))
              (sym (suc_mul rounds d))
              (Heavier-weights p rest.parts (negsuc s.bucket_id) b.bucket.h.weight s.osd_id
                (rounds * d) b.weighs
                (subst
                  (λ (i : ℕ).
                    Heavier (add_part p (negsuc s.bucket_id) b.bucket.h.weight) rest.parts
                      (total_weight weight i (rounds * d)))
                  b.osd_id rest.heavier));
        osd_id = omega (arith, rest.osd_id, b.osd_id, suc_mul rounds d);
        bucket_id = omega (arith, rest.bucket_id, b.bucket_id, suc_mul rounds (suc k));
        room = rest.room ∙ same ∙ b.room;
      }

construct_rack-Builds :
    (weight : List ℕ) (id : ℤ) (s : Builder)
    → Fits weight 150 10 s
    → Builds weight 150 10 s (construct_rack weight id s)
unfolding construct_rack straw2_bucket
construct_rack-Builds weight id s fits =
    let a =
      child_loop-Adds weight (construct_host weight) host_osd_nums 0 (construct_host-Builds weight)
        10 no_parts s fits in
    let (sum, word) = a.heavier refl in
    record {
      bucket = straw2_bucket id 3 10 a.parts;
      after = a.after;
      returned = rw a.returned refl;
      weighs = sum ∙ ap u32 (left_zero (total_weight weight s.osd_id 150));
      osd_id = a.osd_id;
      bucket_id = a.bucket_id;
      room = a.room;
    }

-- The weights of all the devices that `construct_root` numbers have a place, and so have the pointers
-- to its buckets; then it returns. It numbers 750 devices and 56 buckets from where the globals stand,
-- and the weight of the root is that of the devices, added up with the wrap-around of a 32-bit word.
pub construct_root_weighs :
    (weight : List ℕ) (s : Builder)
    → s.osd_id + 750 ≤ length weight
    → s.bucket_id + 56 ≤ length s.buckets
    → (root : CrushBucketStraw2) × (s' : Builder) × (construct_root weight s ≡ ok (root, s'))
      × (root.h.weight ≡ u32 (total_weight weight s.osd_id 750))
      × (s'.osd_id ≡ s.osd_id + 750)
      × (s'.bucket_id ≡ s.bucket_id + 56)
unfolding construct_root straw2_bucket
construct_root_weighs weight s le room =
    let s1 = record s { bucket_id = s.bucket_id + 1 } in
    let a =
      child_loop-Adds weight (construct_rack weight) 150 10 (construct_rack-Builds weight) 5
        no_parts s1 (le, omega arith) in
    let (sum, word) = a.heavier refl in
    let root = straw2_bucket (negsuc 0) 10 5 a.parts in
    let stored = store_bucket_total a.after s.bucket_id root (omega (arith, a.room)) in
    (
      root,
      record a.after { buckets = set a.after.buckets s.bucket_id (some root) },
      rw (a.returned, stored) refl,
      sum ∙ ap u32 (left_zero (total_weight weight s.osd_id 750)),
      a.osd_id,
      omega (arith, a.bucket_id),
    )
