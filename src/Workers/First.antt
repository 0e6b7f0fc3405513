-- ===== src/Workers/First.antt =====
-- The first worker looks at no entry, so what it writes does not depend on the others.
use my_ceph.Common.{
  ℕ, ◌+◌, ◌==◌, ◌≡◌, refl, sym, ap, ◌∙◌, Bool, true, false, not, ◌&&◌, ◌||◌, if◌then◌else◌, leb,
  ltb, none, u32, Outcome, ok, fault, out_of_fuel, ok-inj, ◌>>=◌, >>=-eq-ok, ℤ, pos, negsuc, ltb_ℤ,
}
use my_ceph.CrushMap.{CrushBucketStraw2}
use my_ceph.Straw.{
  crush_bucket_choose, bucket_straw2_choose, get_choose_arg_ids, get_choose_arg_weights,
}
use my_ceph.Mapper.Memory.{Mem, write}
use my_ceph.Mapper.Turn.{
  Attempt, Turn, take_item, skip_rep, is_out, item_type, choose_arg_of, collides, on_reject,
  leaf_step, turn_inner, retry_bucket, retry_descent, descend_into, bucket_at,
}
use my_ceph.Mapper.Loops.{Fuel}
use my_ceph.Workers.{FirstnInfo, Globals, worker_attempt}
use my_ceph.Workers.Order.{mapped}
use my_ceph.Workers.Progress.{IsPhase}
use my_ceph.Workers.Steps.{
  Phase, descends, compares, notes, writes, finished, go_on, judge, classify, worker_step,
}

-- The phase that a step leads to.
abbrev phase_only : Outcome (Phase × Mem) → Outcome Phase
phase_only m = m >>= λ r. ok r.0

phase_only-bind {ℓ} :
    {A : Type ℓ} (m : Outcome A) (h h' : A → Outcome (Phase × Mem))
    → ((a : A) → phase_only (h a) ≡ phase_only (h' a))
    → phase_only (m >>= h) ≡ phase_only (m >>= h')
phase_only-bind (ok a) h h' e = e a
phase_only-bind fault h h' e = refl
phase_only-bind out_of_fuel h h' e = refl

phase_only-if :
    (b : Bool) (x x' y y' : Outcome (Phase × Mem))
    → phase_only x ≡ phase_only x'
    → phase_only y ≡ phase_only y'
    → phase_only (if b then x else y) ≡ phase_only (if b then x' else y')
phase_only-if true x x' y y' e e' = e
phase_only-if false x x' y y' e e' = e'

-- A step leads to the same phase over other arrays.
module _ (a : Attempt) (mem mem' : Mem) (b : CrushBucketStraw2) (ft fl : ℕ) where
  ended_same :
      (rejected collide : Bool) (item : ℤ)
      → (go_on a b ft fl (
          if rejected
          then on_reject a b collide (u32 (ft + 1)) (u32 (fl + 1)) item mem
          else take_item item mem)).0
        ≡ (go_on a b ft fl (
            if rejected
            then on_reject a b collide (u32 (ft + 1)) (u32 (fl + 1)) item mem'
            else take_item item mem')).0
  unfolding on_reject go_on
  ended_same false collide item = refl
  ended_same true collide item =
      by_cases (collide && leb (u32 (fl + 1)) a.local_retries)
        (ltb 0 a.local_fallback_retries
          && leb (u32 (fl + 1)) (u32 (b.h.size + a.local_fallback_retries)))
        (ltb (u32 (ft + 1)) a.tries)
    where
      choice : Bool → Bool → Bool → Mem → Turn
      choice p q r m =
          if p
          then retry_bucket item m
          else if q
          then retry_bucket item m
          else if r
          then retry_descent item m
          else skip_rep item m

      by_cases :
          (p q r : Bool)
          → (go_on a b ft fl (choice p q r mem)).0 ≡ (go_on a b ft fl (choice p q r mem')).0
      by_cases true q r = refl
      by_cases false true r = refl
      by_cases false false true = refl
      by_cases false false false = refl

  judge_same :
      (ty : ℕ) (item : ℤ) (collide reject : Bool)
      → phase_only (judge a b ty ft fl item collide reject mem)
        ≡ phase_only (judge a b ty ft fl item collide reject mem')
  unfolding judge
  judge_same ty item collide reject =
      phase_only-bind
        (if not reject && not collide && ty == 0
          then is_out a.weight a.weight_max item a.x
          else ok reject)
        _ _ (λ r. ap ok (ended_same (r || collide) collide item))

  turn_inner_same :
      (item : ℤ)
      → phase_only (turn_inner a item mem >>= λ t. ok (go_on a b ft fl t))
        ≡ phase_only (turn_inner a item mem' >>= λ t. ok (go_on a b ft fl t))
  unfolding turn_inner go_on
  turn_inner_same (pos n) = refl
  turn_inner_same (negsuc n) = by_cases (leb a.map.max_buckets n) (bucket_at a.map n)
    where
      inner : Bool → Outcome CrushBucketStraw2 → Mem → Outcome Turn
      inner p o m =
          if p then ok (skip_rep (negsuc n) m) else (o >>= λ c. ok (descend_into c (negsuc n) m))

      by_cases :
          (p : Bool) (o : Outcome CrushBucketStraw2)
          → phase_only (inner p o mem >>= λ t. ok (go_on a b ft fl t))
            ≡ phase_only (inner p o mem' >>= λ t. ok (go_on a b ft fl t))
      by_cases true o = refl
      by_cases false (ok c) = refl
      by_cases false fault = refl
      by_cases false out_of_fuel = refl

  classify_same :
      (r : ℕ) (item : ℤ)
      → phase_only (classify a b r ft fl item mem) ≡ phase_only (classify a b r ft fl item mem')
  unfolding classify
  classify_same r item =
      phase_only-if (ltb_ℤ item a.map.max_devices) _ _ _ _
        (phase_only-bind (item_type a.map item) _ _ (λ ty.
          phase_only-if (ty == a.type) (ok (compares b ty r ft fl item, mem))
            (ok (compares b ty r ft fl item, mem')) _ _ refl (turn_inner_same item)))
        refl

module _ (fuel : Fuel) (g : Globals) (f : FirstnInfo) (no_args : f.choose_args ≡ none) where
  abbrev pub first : ℕ → Attempt
  first n = worker_attempt fuel g (record f { outpos = n }) 0 0

  same_phase :
      (m m' : Outcome (Phase × Mem)) {q q' : Phase} {l l' : Mem}
      → phase_only m ≡ phase_only m'
      → m ≡ ok (q, l)
      → m' ≡ ok (q', l')
      → q ≡ q'
  same_phase m m' e h h' = ok-inj (sym (ap phase_only h) ∙ e ∙ ap phase_only h')

  no_choose_arg : (id : ℤ) → choose_arg_of f.choose_args id ≡ ok none
  unfolding choose_arg_of
  no_choose_arg id = rw no_args refl

  descended_same :
      (b : CrushBucketStraw2) (ft fl n n' : ℕ) (item : ℤ) (mem mem' : Mem)
      → phase_only (worker_step (first n) (descends b ft fl item) mem)
        ≡ phase_only (worker_step (first n') (descends b ft fl item) mem')
  unfolding worker_step worker_attempt crush_bucket_choose bucket_straw2_choose get_choose_arg_ids
      get_choose_arg_weights go_on judge classify on_reject turn_inner
  descended_same b ft fl n n' item mem mem' = rw (no_choose_arg b.h.id) (
      phase_only-if (b.h.size == 0) _ _ _ _
        (ap ok (ended_same (first n) mem mem' b ft fl true false item))
        (phase_only-bind (crush_bucket_choose b f.x (u32 ((first n).r0 + ft)) none n) _ _
          (λ chosen. classify_same (first n) mem mem' b ft fl (u32 ((first n).r0 + ft)) chosen)))

  compared_same :
      (b : CrushBucketStraw2) (ty r ft fl n n' : ℕ) (item : ℤ) (mem mem' : Mem)
      → phase_only (worker_step (first n) (compares b ty r ft fl item) mem)
        ≡ phase_only (worker_step (first n') (compares b ty r ft fl item) mem')
  unfolding worker_step worker_attempt collides go_on judge on_reject
  compared_same b ty r ft fl n n' item mem mem' =
      phase_only-if (not (f.recurse_to_leaf == 0)) (ok (notes b ty r ft fl item, mem))
        (ok (notes b ty r ft fl item, mem')) _ _ refl
        (judge_same (first n) mem mem' b ft fl ty item false false)

  -- Whatever the arrays hold and the others have counted, a step leads to the same phase.
  pub worker_step_same_phase :
      (height : CrushBucketStraw2 → ℕ) (p q q' : Phase) (n n' : ℕ) (mem mem' l l' : Mem)
      → IsPhase f.map height f.recurse_to_leaf p
      → worker_step (first n) p mem ≡ ok (q, l)
      → worker_step (first n') p mem' ≡ ok (q', l')
      → q ≡ q'
  unfolding worker_step worker_attempt leaf_step go_on judge on_reject
  worker_step_same_phase height (descends b ft fl item) q q' n n' mem mem' l l' v h h' =
      same_phase _ _ (descended_same b ft fl n n' item mem mem') h h'
  worker_step_same_phase height (compares b ty r ft fl item) q q' n n' mem mem' l l' v h h' =
      same_phase _ _ (compared_same b ty r ft fl n n' item mem mem') h h'
  worker_step_same_phase height (notes b ty r ft fl (pos k)) q q' n n' mem mem' l l' v h h' =
      let (m, e, j) = mapped (write mem f.out2 0 (pos k)) (λ m. (false, m)) _ h in
      let (m', e', j') = mapped (write mem' f.out2 0 (pos k)) (λ m. (false, m)) _ h' in
      same_phase _ _ (judge_same (first n) m m' b ft fl ty (pos k) false false) j j'
  worker_step_same_phase height (notes b ty r ft fl (negsuc k)) q q' n n' mem mem' l l' v h h' =
      absurd v
  worker_step_same_phase height (writes item) q q' n n' mem mem' l l' v h h' =
      let (m, e, j) = >>=-eq-ok (write mem f.out 0 item) _ h in
      let (m', e', j') = >>=-eq-ok (write mem' f.out 0 item) _ h' in
      ap (λ (s : Phase × Mem). s.0) (ok-inj (sym j)) ∙ ap (λ (s : Phase × Mem). s.0) (ok-inj j')
  worker_step_same_phase height finished q q' n n' mem mem' l l' v h h' =
      ap (λ (s : Phase × Mem). s.0) (ok-inj (sym h)) ∙ ap (λ (s : Phase × Mem). s.0) (ok-inj h')
