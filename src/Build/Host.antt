-- ===== src/Build/Host.antt =====
-- The weight of a host, and sums of weights.
use native.Mathlib.Nat.{mod-mod, mod-add-mod}
use my_ceph.Common.{
  ℕ, zero, suc, ◌+◌, ◌%◌, ◌^◌, ◌≤◌, ◌<◌, ◌≡◌, refl, sym, ap, ◌∙◌, arith, lt→ltb, List, get_elem?,
  length, set, Option, none, some, u32, ℤ, pos, Outcome, ok,
}
use my_ceph.CrushMap.{CrushBucketStraw2}
use my_ceph.Straw.Choose.{get_elem?-some}
use my_ceph.Build.{
  Builder, Parts, no_parts, add_part, straw2_bucket, store_bucket, host_loop, host_osd_nums,
  construct_host,
}

-- The weight of a device, or 0 behind the end.
abbrev weight_of : Option ℕ → ℕ
weight_of none = 0
weight_of (some w) = w

-- The weights of `n` devices from device `i` on, added up without wrap-around.
unfoldable pub total_weight : List ℕ → ℕ → ℕ → ℕ
total_weight weight i zero = 0
total_weight weight i (suc n) = weight_of (get_elem? weight i) + total_weight weight (i + 1) n

pub left_zero : (n : ℕ) → 0 + n ≡ n
left_zero n = omega arith

pub right_zero : (n : ℕ) → n + 0 ≡ n
right_zero n = omega arith

suc_add : (a b : ℕ) → suc a + b ≡ suc (a + b)
suc_add a b = omega arith

suc_right : (i n : ℕ) → i + suc n ≡ i + 1 + n
suc_right i n = omega arith

pub total_weight-add :
    (weight : List ℕ) (i a b : ℕ)
    → total_weight weight i (a + b) ≡ total_weight weight i a + total_weight weight (i + a) b
unfolding total_weight
total_weight-add weight i zero b = rw (left_zero b, right_zero i) (omega arith)
total_weight-add weight i (suc a) b =
    rw (suc_add a b, suc_right i a) (omega (arith, total_weight-add weight (i + 1) a b))

pub u32-add : (a b c : ℕ) → u32 (u32 (a + b) + c) ≡ u32 (a + (b + c))
u32-add a b c = mod-add-mod (a + b) (2 ^ 32) c ∙ ap (λ (n : ℕ). n % 2 ^ 32) (omega arith)

-- A list of parts to which devices of total weight `w` have been added.
abbrev pub Heavier : Parts → Parts → ℕ → Type 0
Heavier p q w =
    (p.weight ≡ u32 p.weight) → (q.weight ≡ u32 (p.weight + w)) × (q.weight ≡ u32 q.weight)

host_loop_total :
    (rounds : ℕ) (weight : List ℕ) (p : Parts) (osd_id : ℕ)
    → osd_id + rounds ≤ length weight
    → (q : Parts) × (host_loop rounds weight p osd_id ≡ ok (q, osd_id + rounds))
      × Heavier p q (total_weight weight osd_id rounds)
unfolding host_loop add_part total_weight
host_loop_total zero weight p osd_id le =
    (p, ap (λ (n : ℕ). ok (p, n)) (sym (right_zero osd_id)), λ h. (rw (right_zero p.weight) h, h))
host_loop_total (suc rounds) weight p osd_id le =
    let (w, ew) = get_elem?-some weight osd_id (omega arith) in
    let (q, e, heavier) =
      host_loop_total rounds weight (add_part p (pos osd_id) w) (osd_id + 1) (omega arith) in
    (
      q,
      rw (ew, suc_right osd_id rounds) e,
      λ h.
          let (sum, word) = heavier (sym (mod-mod (p.weight + w) (2 ^ 32))) in
          (rw ew (sum ∙ u32-add p.weight w (total_weight weight (osd_id + 1) rounds)), word),
    )

-- What the construction of a bucket over `devices` devices, with `below` buckets below it, comes to.
pub record Builds (weight : List ℕ) (devices below : ℕ) (s : Builder)
    (r : Outcome (CrushBucketStraw2 × Builder)) : Type 0 where
  pub bucket : CrushBucketStraw2
  pub after : Builder
  pub returned : r ≡ ok (bucket, after)
  pub weighs : bucket.h.weight ≡ u32 (total_weight weight s.osd_id devices)
  pub osd_id : after.osd_id ≡ s.osd_id + devices
  pub bucket_id : after.bucket_id ≡ s.bucket_id + below
  pub room : length after.buckets ≡ length s.buckets

-- There are devices and pointers enough.
abbrev pub Fits : List ℕ → ℕ → ℕ → Builder → Type 0
Fits weight devices below s =
    (s.osd_id + devices ≤ length weight) × (s.bucket_id + below ≤ length s.buckets)

pub store_bucket_total :
    (s : Builder) (n : ℕ) (b : CrushBucketStraw2)
    → n < length s.buckets
    → store_bucket s n b ≡ ok (record s { buckets = set s.buckets n (some b) })
unfolding store_bucket
store_bucket_total s n b lt = rw (lt→ltb n (length s.buckets) lt) refl

pub construct_host-Builds :
    (weight : List ℕ) (id : ℤ) (s : Builder)
    → Fits weight host_osd_nums 0 s
    → Builds weight host_osd_nums 0 s (construct_host weight id s)
unfolding construct_host straw2_bucket
construct_host-Builds weight id s (le, room) =
    let (q, e, heavier) = host_loop_total host_osd_nums weight no_parts s.osd_id le in
    let (sum, word) = heavier refl in
    record {
      bucket = straw2_bucket id 1 host_osd_nums q;
      after = record s { osd_id = s.osd_id + host_osd_nums };
      returned = rw e refl;
      weighs = sum ∙ ap u32 (left_zero (total_weight weight s.osd_id host_osd_nums));
      osd_id = refl;
      bucket_id = sym (right_zero s.bucket_id);
      room = refl;
    }
