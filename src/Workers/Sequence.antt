-- ===== src/Workers/Sequence.antt =====
-- The workers one after the other compute what `crush_choose_firstn` computes, as long as no replica
-- is given up.
use my_ceph.Common.{
  ℕ, suc, ◌+◌, ◌==◌, ◌≡◌, ◌≢◌, refl, ap, ◌∙◌, arith, Bool, false, List, [], ◌∷◌, some, Outcome, ok,
  ◌>>=◌, ℤ, pos,
}
use my_ceph.Mapper.{Firstn, attempt, crush_choose_firstn}
use my_ceph.Mapper.Memory.{Mem, write}
use my_ceph.Mapper.Turn.{Attempt}
use my_ceph.Mapper.Turn.Same.{with_leaf, IsTyped}
use my_ceph.Mapper.Loops.{Fuel, place}
use my_ceph.Mapper.Loops.Same.{place_same_leaf, place_same_item}
use my_ceph.Mapper.Placed.{IsPlacedAt, crush_choose_firstn-Three}
use my_ceph.Workers.{
  FirstnInfo, Globals, worker_leaf, worker_attempt, worker_place, do_work1, do_work2, do_work3,
  wait_for_workers, run_workers, pthread_crush_choose_firstn,
}

-- The call of `crush_choose_firstn` with the arguments of the structure, and with no `parent_r`.
unfoldable pub same_args : FirstnInfo → Firstn
same_args f = record {
  map = f.map;
  bucket = f.bucket;
  weight = f.weight;
  weight_max = f.weight_max;
  x = f.x;
  numrep = f.numrep;
  type = f.type;
  out = f.out;
  outpos = f.outpos;
  out_size = f.out_size;
  tries = f.tries;
  recurse_tries = f.recurse_tries;
  local_retries = f.local_retries;
  local_fallback_retries = f.local_fallback_retries;
  recurse_to_leaf = f.recurse_to_leaf;
  vary_r = f.vary_r;
  stable = f.stable;
  out2 = f.out2;
  parent_r = 0;
  choose_args = f.choose_args;
}

-- What the drivers set: three devices are looked for, stably, from a bucket that has items, among
-- the devices that the globals count.
pub record IsForThree (g : Globals) (f : FirstnInfo) : Type 0 where
  pub typed : IsTyped f.map
  pub full : f.bucket.h.size ≢ 0
  pub devices : f.type ≡ 0
  pub stable : f.stable ≢ 0
  pub numrep : f.numrep ≡ 3
  pub out_size : f.out_size ≡ 3
  pub weight_max : g.weight_max ≡ f.weight_max

module _ (depth : ℕ) (fuel : Fuel) (g : Globals) (f : FirstnInfo) (s : IsForThree g f) where
  -- The loops of worker `k` and of replica `k` read the same, but for the recursive call.
  same_attempt :
      (k count : ℕ)
      → worker_attempt fuel g (record f { outpos = k }) k k
        ≡ with_leaf
            (attempt (same_args f) (crush_choose_firstn depth fuel) k k count)
            (λ b sub_r mem.
              crush_choose_firstn 1 fuel (worker_leaf g (record f { outpos = k }) b sub_r) mem)
  unfolding worker_attempt attempt same_args
  same_attempt k count = rw (s.weight_max, nonzero s.stable, comm k) refl
    where
      nonzero : f.stable ≢ 0 → (f.stable == 0) ≡ false
      nonzero ns = ground arith

      comm : (k : ℕ) → k + 0 ≡ 0 + k
      comm k = omega arith

  -- Worker `k` writes what replica `k` is.
  same_place :
      (k count : ℕ) (item : ℤ) (mem : Mem) (item' : ℤ) (mem' : Mem)
      → IsPlacedAt (crush_choose_firstn depth fuel) fuel (same_args f) k count item mem item' mem'
      → worker_place fuel g (record f { outpos = k }) k k mem ≡ ok mem'
  unfolding worker_place same_args attempt
  same_place k count item mem item' mem' p =
      ap
        (λ (o : Outcome (Bool × ℤ × Mem)).
          o >>= λ (taken, last, between). write between f.out k last)
        (ap (λ (a : Attempt). place fuel.outer fuel.inner a 0 (pos 0) mem) (same_attempt k count)
          ∙ place_same_leaf (attempt (same_args f) (crush_choose_firstn depth fuel) k k count) _
              s.devices s.typed fuel.outer fuel.inner 0 (pos 0) mem
          ∙ place_same_item fuel.outer fuel.inner _ 0 (pos 0) item mem s.full
          ∙ p.placed)
      ∙ p.written

  -- The workers in the order of their creation.
  workers_in_order :
      (mem mem' : Mem)
      → f.outpos ≡ 0
      → crush_choose_firstn (suc depth) fuel (same_args f) mem ≡ ok (3, mem')
      → run_workers fuel g (record f { outpos = 0 }) mem ≡ ok (record f { outpos = 3 }, mem')
  unfolding run_workers do_work1 do_work2 do_work3 same_args
  workers_in_order mem mem' e h =
      let t =
        crush_choose_firstn-Three depth fuel (same_args f) mem mem' s.numrep s.stable e s.out_size
          h in
      rw (same_place 0 3 (pos 0) mem t.item0 t.mem1 t.first) (
        rw (same_place 1 2 t.item0 t.mem1 t.item1 t.mem2 t.second)
          (rw (same_place 2 1 t.item1 t.mem2 t.item2 mem' t.third) refl))

-- The structure of an object with its new array, before the workers start and when they are done.
abbrev pub at_position : ℕ → FirstnInfo → FirstnInfo
at_position n f = record f { out = some 0; out2 = some 0; outpos = n }

-- Where `crush_choose_firstn`, on the same arguments and an array with the same contents, fills three
-- entries, the three workers run in the order of their creation fill the same array in the same way:
-- `pthread_crush_choose_firstn` ends its wait, returns position 3 and leaves that array.
pub pthread_crush_choose_firstn-same :
    (fuel : Fuel) (g : Globals) (garbage : List ℤ) (f : FirstnInfo) (mem : Mem)
    → IsForThree g f
    → crush_choose_firstn 2 fuel (same_args (at_position 0 f)) (garbage ∷ []) ≡ ok (3, mem)
    → pthread_crush_choose_firstn fuel g garbage f ≡ ok (3, at_position 3 f, mem)
unfolding pthread_crush_choose_firstn wait_for_workers
pthread_crush_choose_firstn-same fuel g garbage f mem s h =
    ap
      (λ (o : Outcome (FirstnInfo × Mem)).
        o >>= λ (f', mem). wait_for_workers f' >>= λ outpos. ok (outpos, f', mem))
      (workers_in_order 1 fuel g (at_position 0 f) same (garbage ∷ []) mem refl h)
  where
    same : IsForThree g (at_position 0 f)
    same = record {
      typed = s.typed;
      full = s.full;
      devices = s.devices;
      stable = s.stable;
      numrep = s.numrep;
      out_size = s.out_size;
      weight_max = s.weight_max;
    }
