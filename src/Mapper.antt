-- ===== src/Mapper.antt =====
-- CRUSH_Research/main.cpp: `is_out` and `crush_choose_firstn`, which picks replicas one after the
-- other. The body of its two do-while loops, a turn, is in `Mapper.Turn`.
pub mod Memory
pub mod Turn
pub mod Loops
pub mod Results
pub mod Total
pub mod Placed
use my_ceph.Common.{
  ℕ, zero, suc, ◌+◌, ◌-◌, ◌==◌, if◌then◌else◌, List, Option, none, some, u32, Outcome, ok,
  out_of_fuel, ◌>>=◌,
}
use my_ceph.Common.{ℤ, pos, Bool}
use my_ceph.CrushMap.{CrushMap, CrushBucketStraw2, CrushChooseArg}
use my_ceph.Mapper.Memory.{Mem, Pointer, write}
use my_ceph.Mapper.Turn.{Attempt}
use my_ceph.Mapper.Loops.{Fuel, place}

-- The arguments of `crush_choose_firstn`, less the work area, which it only hands on.
pub record Firstn : Type 0 where
  pub map : CrushMap
  pub bucket : CrushBucketStraw2
  pub weight : List ℕ
  pub weight_max : ℕ
  pub x : ℕ
  pub numrep : ℕ
  pub type : ℕ
  pub out : Pointer
  pub outpos : ℕ
  pub out_size : ℕ
  pub tries : ℕ
  pub recurse_tries : ℕ
  pub local_retries : ℕ
  pub local_fallback_retries : ℕ
  pub recurse_to_leaf : ℕ
  pub vary_r : ℕ
  pub stable : ℕ
  pub out2 : Pointer
  pub parent_r : ℕ
  pub choose_args : Option (List CrushChooseArg)

-- The arguments of the recursive call that looks for a device below bucket `b`, when the loop is
-- at `outpos` with `count` replicas to go.
unfoldable pub leaf_firstn : Firstn → ℕ → ℕ → CrushBucketStraw2 → ℕ → Firstn
leaf_firstn f outpos count b sub_r = record f {
  bucket = b;
  numrep = if f.stable == 0 then outpos + 1 else 1;
  type = 0;
  out = f.out2;
  outpos = outpos;
  out_size = count;
  tries = f.recurse_tries;
  recurse_tries = 0;
  recurse_to_leaf = 0;
  out2 = none;
  parent_r = sub_r;
}

-- What the loops of one replica read.
unfoldable pub attempt : Firstn → (Firstn → Mem → Outcome (ℕ × Mem)) → ℕ → ℕ → ℕ → Attempt
attempt f choose rep outpos count = record {
  map = f.map;
  bucket = f.bucket;
  weight = f.weight;
  weight_max = f.weight_max;
  x = f.x;
  r0 = u32 (rep + f.parent_r);
  type = f.type;
  out = f.out;
  out2 = f.out2;
  outpos = outpos;
  position = outpos;
  tries = f.tries;
  local_retries = f.local_retries;
  local_fallback_retries = f.local_fallback_retries;
  recurse_to_leaf = f.recurse_to_leaf;
  vary_r = f.vary_r;
  choose_args = f.choose_args;
  leaf = λ b sub_r mem. choose (leaf_firstn f outpos count b sub_r) mem;
}

-- The loop over `rep`, with the rounds that are left; `choose` makes the recursive call. A replica
-- that is given up leaves `outpos` and `count`.
unfoldable pub replicas :
    (Firstn → Mem → Outcome (ℕ × Mem)) → Fuel → Firstn → ℕ → ℕ → ℕ → ℕ → ℤ → Mem → Outcome (ℕ × Mem)
replicas choose fuel f zero rep outpos count item mem = ok (outpos, mem)
replicas choose fuel f (suc rounds) rep outpos zero item mem = ok (outpos, mem)
replicas choose fuel f (suc rounds) rep outpos (suc count) item mem = do
  (placed, item', mem') ←
      place fuel.outer fuel.inner (attempt f choose rep outpos (suc count)) 0 item mem
  elim placed [
    | Bool.true ↦ (do
      mem'' ← write mem' f.out outpos item'
      replicas choose fuel f rounds (rep + 1) (outpos + 1) count item' mem'')
    | Bool.false ↦ replicas choose fuel f rounds (rep + 1) outpos (suc count) item' mem'
  ]

-- The first number is the depth of the calls that the model still makes.
unfoldable pub crush_choose_firstn : ℕ → Fuel → Firstn → Mem → Outcome (ℕ × Mem)
crush_choose_firstn zero fuel f mem = out_of_fuel
crush_choose_firstn (suc depth) fuel f mem =
    let rep = if f.stable == 0 then f.outpos else 0 in
    replicas (crush_choose_firstn depth fuel) fuel f (f.numrep - rep) rep f.outpos f.out_size
      (pos 0) mem
