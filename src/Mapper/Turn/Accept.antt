-- ===== src/Mapper/Turn/Accept.antt =====
-- What a turn does to the arrays, and what is known of an item that it takes.
use my_ceph.Common.{
  ℕ, zero, suc, ◌+◌, ◌≤◌, ◌<◌, ◌==◌, ◌≡◌, ◌≢◌, refl, sym, ap, ◌∙◌, subst, arith, Bool, true, false,
  not, ◌&&◌, ◌||◌, if◌then◌else◌, Bool-cases, inl, inr, leb, dec_lt, ltb, u32,
}
use my_ceph.Common.{ℤ, pos, negsuc, ltb_ℤ, eqb_ℤ, eqb_ℤ_refl, ◌<ℤ◌, ok, >>=-eq-ok}
use my_ceph.CrushMap.{CrushBucketStraw2}
use my_ceph.Straw.{crush_bucket_choose}
use my_ceph.Mapper.Memory.{Mem, Pointer, read, write, Keeps, Keeps-refl, write-Keeps}
use my_ceph.Mapper.Turn.{
  Attempt, Turn, descend_into, retry_bucket, retry_descent, skip_rep, take_item, is_out, bucket_at,
  item_type, collides, sub_r, on_reject, leaf_step, turn_found, turn_inner, turn_item, turn,
  choose_arg_of,
}

-- A scan that finds no collision has seen another item at each index.
collides_sound :
    (mem : Mem) (out : Pointer) (item : ℤ) (rounds i : ℕ)
    → collides mem out rounds i item ≡ ok false
    → (j : ℕ) → i ≤ j
    → j < i + rounds
    → read mem out j ≢ ok item
unfolding collides
collides_sound mem out item zero i h j lo hi = absurd (omega arith)
collides_sound mem out item (suc rounds) i h j lo hi =
    let (other, eo, rest) = >>=-eq-ok (read mem out i) _ h in
    elim (Bool-cases (eqb_ℤ other item)) [
      | inl hit ↦ absurd (ground arith)
      | inr miss ↦ elim (dec_lt i j) [
        | yes lt ↦
            collides_sound mem out item rounds (i + 1) (ground arith) j (omega arith) (omega arith)
        | no ge ↦ λ e. absurd (other_item other item miss (same_value (omega arith) eo e))
      ]
    ]
  where
    other_item : (p q : ℤ) → eqb_ℤ p q ≡ false → p ≢ q
    other_item p q miss e = cc (eqb_ℤ_refl q, ap (λ t. eqb_ℤ t q) e)

    same_value : {p q : ℤ} → ◌≡◌ {A = ℕ} i j → read mem out i ≡ ok p → read mem out j ≡ ok q → p ≡ q
    same_value e u v = cc (ap (read mem out) e)

-- An item that a turn may take: a device of the map or a bucket, of the wanted type, in service if
-- it is a device, and not among the first `outpos` results.
pub record IsFit (a : Attempt) (item : ℤ) : Type 0 where
  pub below : item <ℤ a.map.max_devices
  pub typed : item_type a.map item ≡ ok a.type
  pub in_service : a.type ≡ 0 → is_out a.weight a.weight_max item a.x ≡ ok false

pub record IsNew (a : Attempt) (mem : Mem) (item : ℤ) : Type 0 where
  pub differs : (j : ℕ) → j < a.outpos → read mem a.out j ≢ ok item

-- The arrays behind a turn.
abbrev pub mem_of : Turn → Mem
mem_of (descend_into b item mem) = mem
mem_of (retry_bucket item mem) = mem
mem_of (retry_descent item mem) = mem
mem_of (skip_rep item mem) = mem
mem_of (take_item item mem) = mem

-- The recursive call leaves the first `outpos` entries of every array alone.
abbrev pub LeafKeeps : Attempt → Type 0
LeafKeeps a =
    (b : CrushBucketStraw2) (s : ℕ) (mem : Mem) (p : ℕ) (mem' : Mem)
    → a.leaf b s mem ≡ ok (p, mem')
    → Keeps a.outpos mem mem'

pub on_reject-mem :
    (a : Attempt) (b : CrushBucketStraw2) (c : Bool) (ft fl : ℕ) (item : ℤ) (mem : Mem)
    → mem_of (on_reject a b c ft fl item mem) ≡ mem
unfolding on_reject
on_reject-mem a b c ft fl item mem = ground arith

-- A statement about the item of a turn that takes one.
abbrev pub OnTake : (ℤ → Type 0) → Turn → Type 0
OnTake P (take_item item mem) = P item
OnTake P _ = Unit {0}

ifs-OnTake :
    (P : ℤ → Type 0) (p q s : Bool) (item : ℤ) (mem : Mem)
    → OnTake P (
        if p
        then retry_bucket item mem
        else if q
        then retry_bucket item mem
        else if s
        then retry_descent item mem
        else skip_rep item mem)
ifs-OnTake P true q s item mem = tt
ifs-OnTake P false true s item mem = tt
ifs-OnTake P false false true item mem = tt
ifs-OnTake P false false false item mem = tt

on_reject-OnTake :
    (P : ℤ → Type 0) (a : Attempt) (b : CrushBucketStraw2) (c : Bool) (ft fl : ℕ) (item : ℤ)
    (mem : Mem)
    → OnTake P (on_reject a b c ft fl item mem)
unfolding on_reject
on_reject-OnTake P a b c ft fl item mem =
    ifs-OnTake P (c && leb fl a.local_retries)
      (ltb 0 a.local_fallback_retries && leb fl (u32 (b.h.size + a.local_fallback_retries)))
      (ltb ft a.tries) item mem

-- What a turn has done: the first results are as they were, and an item that it takes is fit and
-- new.
pub record Turned (a : Attempt) (mem : Mem) (t : Turn) : Type 0 where
  pub keeps : Keeps a.outpos mem (mem_of t)
  pub taken : OnTake (λ item. IsFit a item × IsNew a mem item) t

module _ (a : Attempt) (keeps : LeafKeeps a) where
  leaf_step-Keeps :
      (item : ℤ) (r : ℕ) (mem : Mem) {t : Bool} {mem' : Mem}
      → leaf_step a item r mem ≡ ok (t, mem')
      → Keeps a.outpos mem mem'
  unfolding leaf_step
  leaf_step-Keeps (pos n) r mem h =
      let (mem'', e, k) = >>=-eq-ok (write mem a.out2 a.outpos (pos n)) _ h in
      subst (Keeps a.outpos mem) (ground arith)
        (write-Keeps a.outpos mem a.out2 a.outpos (pos n) e (omega arith))
  leaf_step-Keeps (negsuc n) r mem h =
      let (b, eb, k) = >>=-eq-ok (bucket_at a.map n) _ h in
      let ((p, mem''), el, k') = >>=-eq-ok (a.leaf b (sub_r a.vary_r r) mem) _ k in
      subst (Keeps a.outpos mem) (ground arith) (keeps b (sub_r a.vary_r r) mem p mem'' el)

  in_service_of :
      (item : ℤ) (itemtype : ℕ) (reject collide : Bool)
      → (if not reject && not collide && itemtype == 0
          then is_out a.weight a.weight_max item a.x
          else ok reject)
        ≡ ok false
      → collide ≡ false
      → itemtype ≡ 0
      → is_out a.weight a.weight_max item a.x ≡ ok false
  in_service_of item itemtype true collide e c z = absurd (cc)
  in_service_of item itemtype false collide e c z = ground arith

  leaf_or_not :
      (c : Bool) (item : ℤ) (r : ℕ) (mem : Mem) {t : Bool} {mem' : Mem}
      → (if c then leaf_step a item r mem else ok (false, mem)) ≡ ok (t, mem')
      → Keeps a.outpos mem mem'
  leaf_or_not true item r mem e = leaf_step-Keeps item r mem e
  leaf_or_not false item r mem e =
      subst (Keeps a.outpos mem) (ground arith) (Keeps-refl a.outpos mem)

  ends :
      (b : CrushBucketStraw2) (itemtype : ℕ) (ft fl : ℕ) (item : ℤ) (mem mem' : Mem)
      (collide reject : Bool)
      → item <ℤ a.map.max_devices
      → item_type a.map item ≡ ok itemtype
      → itemtype ≡ a.type
      → collides mem a.out a.outpos 0 item ≡ ok collide
      → Keeps a.outpos mem mem'
      → (collide ≡ false
          → reject ≡ false
          → itemtype ≡ 0
          → is_out a.weight a.weight_max item a.x ≡ ok false)
      → Turned a mem
          (if reject || collide then on_reject a b collide ft fl item mem' else take_item item mem')
  ends b itemtype ft fl item mem mem' false false lt ty et ec k ser = record {
    keeps = k;
    taken = (
      record { below = lt; typed = ty ∙ ap ok et; in_service = λ z. ser refl refl (et ∙ z) },
      record {
        differs = λ j h. collides_sound mem a.out item a.outpos 0 ec j (omega arith) (omega arith);
      },
    );
  }
  ends b itemtype ft fl item mem mem' collide true lt ty et ec k ser = record {
    keeps = subst (Keeps a.outpos mem) (sym (on_reject-mem a b collide ft fl item mem')) k;
    taken = on_reject-OnTake _ a b collide ft fl item mem';
  }
  ends b itemtype ft fl item mem mem' true false lt ty et ec k ser = record {
    keeps = subst (Keeps a.outpos mem) (sym (on_reject-mem a b true ft fl item mem')) k;
    taken = on_reject-OnTake _ a b true ft fl item mem';
  }

  turn_found-Turned :
      (b : CrushBucketStraw2) (itemtype r ft fl : ℕ) (item : ℤ) (mem : Mem) {t : Turn}
      → item <ℤ a.map.max_devices
      → item_type a.map item ≡ ok itemtype
      → itemtype ≡ a.type
      → turn_found a b itemtype r ft fl item mem ≡ ok t
      → Turned a mem t
  unfolding turn_found
  turn_found-Turned b itemtype r ft fl item mem lt ty et h =
      let (collide, ec, h1) = >>=-eq-ok (collides mem a.out a.outpos 0 item) _ h in
      let ((reject, mem'), el, h2) =
        >>=-eq-ok
          (if not collide && not (a.recurse_to_leaf == 0)
            then leaf_step a item r mem
            else ok (false, mem))
          _ h1 in
      let (reject', er, h3) =
        >>=-eq-ok
          (if not reject && not collide && itemtype == 0
            then is_out a.weight a.weight_max item a.x
            else ok reject)
          _ h2 in
      subst (Turned a mem) (ground arith) (
        ends b itemtype (u32 (ft + 1)) (u32 (fl + 1)) item mem mem' collide reject' lt ty et ec
          (leaf_or_not (not collide && not (a.recurse_to_leaf == 0)) item r mem el)
          (λ c z. in_service_of item itemtype reject collide (er ∙ ap ok z) c))

  skipped : (item : ℤ) (mem : Mem) → Turned a mem (skip_rep item mem)
  skipped item mem = record { keeps = Keeps-refl a.outpos mem; taken = tt }

  entered : (b : CrushBucketStraw2) (item : ℤ) (mem : Mem) → Turned a mem (descend_into b item mem)
  entered b item mem = record { keeps = Keeps-refl a.outpos mem; taken = tt }

  turn_inner-Turned :
      (item : ℤ) (mem : Mem) {t : Turn} → turn_inner a item mem ≡ ok t → Turned a mem t
  unfolding turn_inner
  turn_inner-Turned (pos n) mem h = subst (Turned a mem) (ground arith) (skipped (pos n) mem)
  turn_inner-Turned (negsuc n) mem h = elim (Bool-cases (leb a.map.max_buckets n)) [
    | inl out ↦ subst (Turned a mem) (ground arith) (skipped (negsuc n) mem)
    | inr inside ↦
        let (b, eb, k) = >>=-eq-ok (bucket_at a.map n) _ (rw inside at h) in
        subst (Turned a mem) (ground arith) (entered b (negsuc n) mem)
  ]

  turn_item-Turned :
      (b : CrushBucketStraw2) (r ft fl : ℕ) (item : ℤ) (mem : Mem) {t : Turn}
      → turn_item a b r ft fl item mem ≡ ok t
      → Turned a mem t
  unfolding turn_item
  turn_item-Turned b r ft fl item mem h = elim (Bool-cases (ltb_ℤ item a.map.max_devices)) [
    | inl lt ↦
        let (itemtype, ei, k) = >>=-eq-ok (item_type a.map item) _ (rw lt at h) in
        elim (Bool-cases (itemtype == a.type)) [
          | inl same ↦
              turn_found-Turned b itemtype r ft fl item mem (ground arith) ei (ground arith)
                (rw same at k)
          | inr other ↦ turn_inner-Turned item mem (rw other at k)
        ]
    | inr ge ↦ subst (Turned a mem) (ground arith) (skipped item mem)
  ]

  -- Every turn keeps the results so far, and takes only a fit and new item.
  pub turn-Turned :
      (b : CrushBucketStraw2) (ft fl : ℕ) (item : ℤ) (mem : Mem) {t : Turn}
      → turn a b ft fl item mem ≡ ok t
      → Turned a mem t
  unfolding turn
  turn-Turned b ft fl item mem {t} h = elim (Bool-cases (b.h.size == 0)) [
    | inl empty ↦ subst (Turned a mem) (ground arith) (record {
      keeps =
          subst (Keeps a.outpos mem)
            (sym (on_reject-mem a b false (u32 (ft + 1)) (u32 (fl + 1)) item mem))
            (Keeps-refl a.outpos mem);
      taken = on_reject-OnTake _ a b false (u32 (ft + 1)) (u32 (fl + 1)) item mem;
    })
    | inr filled ↦
        let (arg, ea, k) = >>=-eq-ok (choose_arg_of a.choose_args b.h.id) _ (rw filled at h) in
        let (chosen, ec, k') =
          >>=-eq-ok (crush_bucket_choose b a.x (u32 (a.r0 + ft)) arg a.position) _ k in
        turn_item-Turned b (u32 (a.r0 + ft)) ft fl chosen mem k'
  ]
