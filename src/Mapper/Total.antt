-- ===== src/Mapper/Total.antt =====
-- `crush_choose_firstn` returns: with the fuel that the map and the tries ask for, no loop runs on
-- and no array is read or written outside.
use my_ceph.Common.{
  ℕ, zero, suc, ◌+◌, ◌-◌, ◌≤◌, ◌<◌, ◌≡◌, ◌≢◌, refl, sym, ◌∙◌, subst, arith, Bool, true, false, List,
  none, some, get_elem?, length, ℤ, pos, Outcome, ok, ◌>>=◌,
}
use my_ceph.CrushMap.{CrushBucketStraw2}
use my_ceph.Mapper.{Firstn, leaf_firstn, attempt, replicas, crush_choose_firstn}
use my_ceph.Mapper.Results.{first_rep}
use my_ceph.Mapper.Memory.{Mem, write}
use my_ceph.Mapper.Memory.Shape.{shape, Room, Room-mono, write_total}
use my_ceph.Mapper.Turn.Total.{IsNode, IsHierarchy, IsSetUp, CountsFit}
use my_ceph.Mapper.Loops.{Fuel, place}
use my_ceph.Mapper.Loops.Total.{place_total}

-- What a call needs: a hierarchy no higher than `top`, the reweights of all devices, neither
-- `choose_args` nor fallback retries, room for all results, fuel for the retries and the tries, and so
-- few of them that the counters do not wrap.
pub record IsReady (height : CrushBucketStraw2 → ℕ) (top : ℕ) (sh : List ℕ) (fuel : Fuel)
    (f : Firstn) : Type 0 where
  pub tree : IsHierarchy f.map height
  pub low : (n : ℕ) (c : CrushBucketStraw2) → get_elem? f.map.buckets n ≡ some c → height c ≤ top
  pub start : IsNode f.map height f.bucket
  pub start_low : height f.bucket ≤ top
  pub weights : f.weight_max ≤ length f.weight
  pub no_args : f.choose_args ≡ none
  pub no_fallback : f.local_fallback_retries ≡ 0
  pub room : Room sh f.out (f.outpos + f.out_size)
  pub room2 : f.recurse_to_leaf ≢ 0 → Room sh f.out2 (f.outpos + f.out_size)
  pub inner : f.local_retries + top < fuel.inner
  pub outer : f.tries < fuel.outer
  pub outer_leaf : f.recurse_tries < fuel.outer
  pub counts : CountsFit f.tries f.local_retries
  pub counts_leaf : CountsFit f.recurse_tries f.local_retries

-- A call came to a position, and the arrays have the same lengths.
abbrev pub Returns : List ℕ → Outcome (ℕ × Mem) → Type 0
Returns sh m = (hi : ℕ) × (mem' : Mem) × (m ≡ ok (hi, mem')) × (shape mem' ≡ sh)

module _ {height : CrushBucketStraw2 → ℕ} {top : ℕ} {sh : List ℕ} (fuel : Fuel)
    (choose : Firstn → Mem → Outcome (ℕ × Mem)) (f : Firstn) (r : IsReady height top sh fuel f)
    (leaf : f.recurse_to_leaf ≢ 0
      → (g : Firstn) (mem : Mem) → IsReady height top sh fuel g
      → g.recurse_to_leaf ≡ 0
      → shape mem ≡ sh
      → Returns sh (choose g mem)) where
  -- The recursive call is ready too.
  leaf-IsReady :
      (outpos count : ℕ) (b : CrushBucketStraw2) (s : ℕ)
      → f.recurse_to_leaf ≢ 0
      → outpos + count ≡ f.outpos + f.out_size
      → IsNode f.map height b
      → height b ≤ top
      → IsReady height top sh fuel (leaf_firstn f outpos count b s)
  unfolding leaf_firstn
  leaf-IsReady outpos count b s rec e node low = record {
    tree = r.tree;
    low = r.low;
    start = node;
    start_low = low;
    weights = r.weights;
    no_args = r.no_args;
    no_fallback = r.no_fallback;
    room = subst (Room sh f.out2) (sym e) (r.room2 rec);
    room2 = λ nz. absurd (nz refl);
    inner = r.inner;
    outer = r.outer_leaf;
    outer_leaf = omega (arith, r.outer);
    counts = r.counts_leaf;
    counts_leaf = omega (arith, r.counts_leaf);
  }

  attempt-IsSetUp :
      (rep outpos count : ℕ)
      → outpos + suc count ≡ f.outpos + f.out_size
      → IsSetUp height sh (attempt f choose rep outpos (suc count))
  unfolding attempt
  attempt-IsSetUp rep outpos count e = record {
    tree = r.tree;
    weights = r.weights;
    no_args = r.no_args;
    no_fallback = r.no_fallback;
    room = Room-mono sh f.out (omega arith) r.room;
    room2 = λ rec. Room-mono sh f.out2 (omega arith) (r.room2 rec);
    leaf_returns = λ rec n b s mem eb es.
        leaf rec (leaf_firstn f outpos (suc count) b s) mem
          (leaf-IsReady outpos (suc count) b s rec e (r.tree.nodes n b eb) (r.low n b eb))
          (unfold leaf_firstn in refl) es;
  }

  start-IsNode :
      (rep outpos count : ℕ) → IsNode f.map height (attempt f choose rep outpos count).bucket
  unfolding attempt
  start-IsNode rep outpos count = r.start

  place_returns :
      (rep outpos count : ℕ) (item : ℤ) (mem : Mem)
      → outpos + suc count ≡ f.outpos + f.out_size
      → shape mem ≡ sh
      → (p : Bool) × (item' : ℤ) × (mem' : Mem) × (place fuel.outer fuel.inner
            (attempt f choose rep outpos (suc count))
            0
            item
            mem
          ≡ ok (p, item', mem'))
        × (shape mem' ≡ sh)
  unfolding attempt
  place_returns rep outpos count item mem e es =
      place_total (attempt f choose rep outpos (suc count)) (attempt-IsSetUp rep outpos count e)
        r.counts fuel.outer fuel.inner 0 item mem (omega arith) (omega (arith, r.outer))
        (omega (arith, r.start_low, r.inner)) r.start es

  replicas_total :
      (rounds rep outpos count : ℕ) (item : ℤ) (mem : Mem)
      → outpos + count ≡ f.outpos + f.out_size
      → shape mem ≡ sh
      → Returns sh (replicas choose fuel f rounds rep outpos count item mem)
  unfolding replicas
  replicas_total zero rep outpos count item mem e es = (outpos, mem, refl, es)
  replicas_total (suc rounds) rep outpos zero item mem e es = (outpos, mem, refl, es)
  replicas_total (suc rounds) rep outpos (suc count) item mem e es =
      let (p, item', mem', ep, es') = place_returns rep outpos count item mem e es in
      rw ep (after (replicas_total rounds (rep + 1)) p item' mem' es')
    where
      Rest : Type 0
      Rest =
          (o c : ℕ) (item : ℤ) (mem : Mem)
          → o + c ≡ f.outpos + f.out_size
          → shape mem ≡ sh
          → Returns sh (replicas choose fuel f rounds (rep + 1) o c item mem)

      after :
          Rest
          → (p : Bool) (item' : ℤ) (mem' : Mem) → shape mem' ≡ sh
          → Returns sh (elim p [
            | Bool.true ↦
                (write mem' f.out outpos item' >>= λ m2.
                replicas choose fuel f rounds (rep + 1) (outpos + 1) count item' m2)
            | Bool.false ↦ replicas choose fuel f rounds (rep + 1) outpos (suc count) item' mem'
          ])
      after rest true item' mem' es' =
          let (m2, ew, es2) =
            write_total mem' f.out (f.outpos + f.out_size) outpos item'
              (subst (λ t. Room t f.out (f.outpos + f.out_size)) (sym es') r.room) (omega arith) in
          rw ew (rest (outpos + 1) count item' m2 (omega arith) (es2 ∙ es'))
      after rest false item' mem' es' = rest outpos (suc count) item' mem' e es'

-- A call without `recurse_to_leaf` takes one level, any other two.
leaf_returns :
    {height : CrushBucketStraw2 → ℕ} {top : ℕ} {sh : List ℕ} (depth : ℕ) (fuel : Fuel) (g : Firstn)
    (mem : Mem)
    → IsReady height top sh fuel g
    → g.recurse_to_leaf ≡ 0
    → shape mem ≡ sh
    → Returns sh (crush_choose_firstn (suc depth) fuel g mem)
unfolding crush_choose_firstn
leaf_returns depth fuel g mem r z es =
    replicas_total fuel (crush_choose_firstn depth fuel) g r (λ nz. absurd (nz z))
      (g.numrep - first_rep g) (first_rep g) g.outpos g.out_size (pos 0) mem refl es

-- On a hierarchy, without `choose_args` and fallback retries, with room in the arrays, and with so few
-- tries and local retries that the counters do not wrap, a call returns a position and arrays of the
-- same lengths: two levels of calls are enough, as are more fuel for a descent than local retries and
-- levels of the hierarchy, and more fuel for a replica than tries.
pub crush_choose_firstn_returns :
    {height : CrushBucketStraw2 → ℕ} {top : ℕ} {sh : List ℕ} (fuel : Fuel) (f : Firstn) (mem : Mem)
    → IsReady height top sh fuel f
    → shape mem ≡ sh
    → Returns sh (crush_choose_firstn 2 fuel f mem)
unfolding crush_choose_firstn
crush_choose_firstn_returns fuel f mem r es =
    replicas_total fuel (crush_choose_firstn 1 fuel) f r (λ nz. leaf_returns 0 fuel)
      (f.numrep - first_rep f) (first_rep f) f.outpos f.out_size (pos 0) mem refl es
