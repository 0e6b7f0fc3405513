-- ===== src/Workers/Moves.antt =====
-- Every step of a worker on a hierarchy moves on.
use my_ceph.Common.{
  ℕ, suc, ◌+◌, ◌-◌, ◌*◌, ◌==◌, ◌≡◌, ◌≢◌, refl, sym, ap, ◌∙◌, subst, arith, Bool, true, false, not,
  ◌&&◌, ◌||◌, if◌then◌else◌, List, Bool-cases, u32, inl, inr, leb,
}
use my_ceph.Common.{ℤ, pos, negsuc, ltb_ℤ, ok, ok-inj, >>=-eq-ok}
use my_ceph.CrushMap.{CrushBucketStraw2}
use my_ceph.Straw.{crush_bucket_choose}
use my_ceph.Straw.Choose.{bucket_straw2_choose-IsBest}
use my_ceph.Mapper.Memory.{Mem}
use my_ceph.Mapper.Memory.Shape.{shape, Room, write_total}
use my_ceph.Mapper.Turn.{
  Attempt, Turn, take_item, item_type, on_reject, leaf_step, turn_inner, bucket_at,
}
use my_ceph.Mapper.Turn.Accept.{mem_of, on_reject-mem}
use my_ceph.Mapper.Turn.Total.{
  IsNode, CountsFit, ItemIn, rejected, out_or_not_total, collides_total,
}
use my_ceph.Mapper.Turn.Returns.{turn_inner_total, item_type_total, item_in, choose_arg_none}
use my_ceph.Workers.Steps.{
  Phase, descends, compares, notes, writes, finished, go_on, judge, classify, worker_step,
}
use my_ceph.Workers.Progress.{
  IsPhase, turns_left, steps_left, done_next, Counts, InCounts, IsWorker, Moves, still, go_on-Moves,
  go_on_ended, weaken, behind_write,
}

module _ {height : CrushBucketStraw2 → ℕ} {sh : List ℕ} (a : Attempt)
    (w : IsWorker height sh a) where
  abbrev left : Phase → ℕ
  left p = steps_left height a.tries a.local_retries a.bucket p

  abbrev turns : CrushBucketStraw2 → ℕ → ℕ → ℕ
  turns b ft fl = turns_left height a.tries a.local_retries a.bucket b ft fl

  choice_Moves :
      (t collide : Bool) (b : CrushBucketStraw2) (ft fl : ℕ) (item : ℤ) (mem : Mem)
      → IsNode a.map height b
      → shape mem ≡ sh
      → Moves height sh a (InCounts a ft fl) 0 mem (3 * turns b ft fl + 2) (
          ok (
            go_on a b ft fl (
              if t
              then on_reject a b collide (u32 (ft + 1)) (u32 (fl + 1)) item mem
              else take_item item mem)))
  choice_Moves true collide b ft fl item mem node e =
      go_on_ended a w b ft fl _ mem
        (ok (on_reject a b collide (u32 (ft + 1)) (u32 (fl + 1)) item mem)) node (omega arith)
        (λ t k.
          ap mem_of (sym (ok-inj k))
          ∙ on_reject-mem a b collide (u32 (ft + 1)) (u32 (fl + 1)) item mem)
        (rejected a w.set_up b ft fl collide item mem e)
  choice_Moves false collide b ft fl item mem node e =
      go_on-Moves a w b ft fl (take_item item mem) node e tt

  judge-Moves :
      (b : CrushBucketStraw2) (ft fl n : ℕ) (collide reject : Bool) (mem : Mem)
      → IsNode a.map height b
      → shape mem ≡ sh
      → Moves height sh a
          (InCounts a ft fl)
          0
          mem
          (3 * turns b ft fl + 2)
          (judge a b 0 ft fl (pos n) collide reject mem)
  unfolding judge item_type
  judge-Moves b ft fl n collide reject mem node e =
      let (reject', eo) =
        out_or_not_total a w.set_up b ft fl (pos n) 0 (not reject && not collide) reject tt refl in
      rw eo (choice_Moves (reject' || collide) collide b ft fl (pos n) mem node e)

  turn_inner-mem : (item : ℤ) (mem : Mem) (t : Turn) → turn_inner a item mem ≡ ok t → mem_of t ≡ mem
  unfolding turn_inner
  turn_inner-mem (pos n) mem t h = ap mem_of (sym (ok-inj h))
  turn_inner-mem (negsuc n) mem t h = elim (Bool-cases (leb a.map.max_buckets n)) [
    | inl out ↦ ap mem_of (sym (ok-inj (rw out at h)))
    | inr inside ↦
        let (b, eb, k) = >>=-eq-ok (bucket_at a.map n) _ (rw inside at h) in
        ap mem_of (sym (ok-inj k))
  ]

  -- An item of the wanted type is a device.
  found_Moves :
      (b : CrushBucketStraw2) (itemtype r ft fl : ℕ) (item : ℤ) (mem : Mem)
      → IsNode a.map height b
      → shape mem ≡ sh
      → ItemIn a w.set_up b ft fl item
      → item_type a.map item ≡ ok itemtype
      → itemtype ≡ a.type
      → Moves height sh a
          (InCounts a ft fl)
          0
          mem
          (3 * turns b ft fl + 4)
          (ok (compares b itemtype r ft fl item, mem))
  unfolding item_type bucket_at
  found_Moves b itemtype r ft fl (pos n) mem node e i ty same =
      still a w mem _ (compares b itemtype r ft fl (pos n)) (node, sym (ok-inj ty)) e
        (λ (fit, counts). (counts, omega arith))
  found_Moves b itemtype r ft fl (negsuc n) mem node e (c, ec, lt) ty same =
      absurd (w.set_up.tree.typed n c ec (ok-inj (rw ec at ty) ∙ same ∙ w.devices))

  classify-Moves :
      (b : CrushBucketStraw2) (r ft fl : ℕ) (item : ℤ) (mem : Mem)
      → IsNode a.map height b
      → shape mem ≡ sh
      → ItemIn a w.set_up b ft fl item
      → Moves height sh a
          (InCounts a ft fl)
          0
          mem
          (3 * turns b ft fl + 4)
          (classify a b r ft fl item mem)
  unfolding classify
  classify-Moves b r ft fl item mem node e i = elim (Bool-cases (ltb_ℤ item a.map.max_devices)) [
    | inl lt ↦
        let (itemtype, ty) = item_type_total a w.set_up b ft fl item i in
        elim (Bool-cases (itemtype == a.type)) [
          | inl same ↦
              rw (lt, ty, same) (found_Moves b itemtype r ft fl item mem node e i ty (ground arith))
          | inr other ↦
              rw (lt, ty, other)
                (go_on_ended a w b ft fl _ mem (turn_inner a item mem) node (omega arith)
                  (turn_inner-mem item mem) (turn_inner_total a w.set_up b ft fl item mem i e))
        ]
    | inr ge ↦ rw ge (still a w mem _ (writes item) tt e (λ c. (tt, omega arith)))
  ]

  noted_Moves :
      (b : CrushBucketStraw2) (r ft fl n : ℕ) (mem : Mem)
      → IsNode a.map height b
      → a.recurse_to_leaf ≢ 0
      → shape mem ≡ sh
      → Moves height sh a
          (InCounts a ft fl)
          0
          mem
          (3 * turns b ft fl + 2)
          (worker_step a (notes b 0 r ft fl (pos n)) mem)
  unfolding worker_step leaf_step
  noted_Moves b r ft fl n mem node rec e =
      let (mem1, ew, e1) =
        write_total mem a.out2 (suc a.outpos) a.outpos (pos n)
          (subst (λ t. Room t a.out2 (suc a.outpos)) (sym e) (w.set_up.room2 rec)) (omega arith) in
      rw ew
        (behind_write a w a.out2 (pos n) ew (judge-Moves b ft fl n false false mem1 node (e1 ∙ e)))

  written_Moves :
      {c : Type 0} (item : ℤ) (mem : Mem)
      → shape mem ≡ sh
      → Moves height sh a c 1 mem 1 (worker_step a (writes item) mem)
  unfolding worker_step
  written_Moves item mem e =
      let (mem1, ew, e1) =
        write_total mem a.out (suc a.outpos) a.outpos item
          (subst (λ t. Room t a.out (suc a.outpos)) (sym e) w.room) (omega arith) in
      rw ew (
        behind_write a w a.out item ew
          (still a w mem1 1 finished tt (e1 ∙ e) (λ c. (tt, omega arith))))

  compared_Moves :
      (b : CrushBucketStraw2) (r ft fl n : ℕ) (mem : Mem)
      → IsNode a.map height b
      → shape mem ≡ sh
      → Moves height sh a
          (InCounts a ft fl)
          0
          mem
          (3 * turns b ft fl + 3)
          (worker_step a (compares b 0 r ft fl (pos n)) mem)
  unfolding worker_step
  compared_Moves b r ft fl n mem node e =
      let (collide, ec) =
        collides_total mem a.out (pos n) a.outpos 0 a.outpos
          (subst (λ t. Room t a.out a.outpos) (sym e) w.set_up.room) (omega arith) in
      elim (Bool-cases (not collide && not (a.recurse_to_leaf == 0))) [
        | inl t ↦
            rw (ec, t)
              (still a w mem _ (notes b 0 r ft fl (pos n)) (node, refl, recursing collide t) e
                (λ (fit, counts). (counts, omega arith)))
        | inr f ↦
            rw (ec, f) (weaken a w (omega arith) (judge-Moves b ft fl n collide false mem node e))
      ]
    where
      recursing :
          (c : Bool) → (not c && not (a.recurse_to_leaf == 0)) ≡ true → a.recurse_to_leaf ≢ 0
      recursing c h z = absurd (ground arith)

  descended_Moves :
      (b : CrushBucketStraw2) (ft fl : ℕ) (item : ℤ) (mem : Mem)
      → IsNode a.map height b
      → shape mem ≡ sh
      → Moves height sh a
          (InCounts a ft fl)
          0
          mem
          (3 * turns b ft fl + 4)
          (worker_step a (descends b ft fl item) mem)
  unfolding worker_step crush_bucket_choose
  descended_Moves b ft fl item mem node e = elim (Bool-cases (b.h.size == 0)) [
    | inl empty ↦
        rw empty (weaken a w (omega arith) (choice_Moves true false b ft fl item mem node e))
    | inr filled ↦
        let (high, chosen, ec, ei, best) =
          bucket_straw2_choose-IsBest b a.x (u32 (a.r0 + ft)) a.position
            (node.sound (ground arith)) in
        rw (filled, choose_arg_none a w.set_up b ft fl, ec)
          (classify-Moves b (u32 (a.r0 + ft)) ft fl chosen mem node e
            (item_in a w.set_up b ft fl node high chosen best.in_range ei))
  ]

  -- A step from a valid phase returns, ends in a valid phase that is nearer to the end, and changes
  -- no entry but that of the worker.
  pub worker_step-Moves :
      (p : Phase) (mem : Mem)
      → IsPhase a.map height a.recurse_to_leaf p
      → shape mem ≡ sh
      → Moves height sh a
          (CountsFit a.tries a.local_retries × Counts a.tries a.local_retries p)
          (done_next p)
          mem
          (suc (left p - 1))
          (worker_step a p mem)
  worker_step-Moves (descends b ft fl item) mem node e =
      weaken a w (omega arith) (descended_Moves b ft fl item mem node e)
  worker_step-Moves (compares b ty r ft fl (pos n)) mem (node, z) e =
      rw z (weaken a w (omega arith) (compared_Moves b r ft fl n mem node e))
  worker_step-Moves (compares b ty r ft fl (negsuc n)) mem v e = absurd v
  worker_step-Moves (notes b ty r ft fl (pos n)) mem (node, z, rec) e =
      rw z (weaken a w (omega arith) (noted_Moves b r ft fl n mem node rec e))
  worker_step-Moves (notes b ty r ft fl (negsuc n)) mem v e = absurd v
  worker_step-Moves (writes item) mem v e = weaken a w (omega arith) (written_Moves item mem e)
  worker_step-Moves finished mem v e =
      unfold worker_step in still a w mem _ finished tt e (λ c. (tt, omega arith))
