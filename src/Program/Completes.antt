-- ===== src/Program/Completes.antt =====
-- `main` comes to its call of `test_pthreadPool`.
use my_ceph.Common.{
  ℕ, zero, suc, ◌+◌, ◌≡◌, refl, ap, ◌∙◌, arith, List, [], ◌∷◌, length, map, length-replicate, some,
  none, Outcome, ok, ℤ,
}
use my_ceph.CrushMap.{CrushBucketStraw2}
use my_ceph.Mapper.Memory.{Mem, Pointer}
use my_ceph.Mapper.Total.{crush_choose_firstn_returns}
use my_ceph.Build.{init2_reweight, osd_sum}
use my_ceph.Build.Check.{level}
use my_ceph.Build.Init2.{init2_map, init2_returns, init2-IsBuilt, init2-IsTuned}
use my_ceph.Drivers.{test_args, test}
use my_ceph.Drivers.Correct.{init2_fuel, args-IsReady, test2-eq-test}
use my_ceph.Workers.{FirstnInfo, pthread_crush_choose_firstn, test_info, object_loop, test_pthread}
use my_ceph.Workers.Schedule.{IsReady}
use my_ceph.Workers.Sequence.{at_position}
use my_ceph.Workers.Whole.{IsFuelled, pthread_crush_choose_firstn_total}
use my_ceph.Program.{Line, print_items, print_buckets, main_globals, object_num, Report, crush_main}

pub line_of : CrushBucketStraw2 → Line
line_of b = record {
  id = b.h.id;
  type = b.h.type;
  weight = b.h.weight;
  size = b.h.size;
  items = b.h.items;
}

print_buckets-init2_map :
    print_buckets init2_map init2_map.max_buckets 0 ≡ ok (map line_of init2_map.buckets)
unfolding print_buckets print_items init2_map line_of
print_buckets-init2_map = refl

-- Every object has a result.
test_total :
    (garbage : ℕ → List ℤ)
    → ((i : ℕ) → length (garbage i) ≡ 3)
    → (rounds i : ℕ)
    → (rs : List (ℕ × Mem)) × (test init2_fuel init2_map init2_reweight garbage rounds i ≡ ok rs)
      × (length rs ≡ rounds)
unfolding test
test_total garbage len zero i = ([], refl, refl)
test_total garbage len (suc rounds) i =
    let (root, tuned) = init2-IsTuned in
    let (hi, mem, e, es) =
      crush_choose_firstn_returns init2_fuel (test_args init2_map root init2_reweight (222 + i))
        (garbage i ∷ []) (args-IsReady init2_map root (222 + i) init2-IsBuilt tuned)
        (ap (λ (n : ℕ). n ∷ []) (len i)) in
    let (rs, e', k) = test_total garbage len rounds (i + 1) in
    ((hi, mem) ∷ rs, rw (tuned.root_at, e, e') refl, ap suc k)

abbrev pub root : CrushBucketStraw2
root = init2-IsTuned.0

-- The structure as the object before has left it.
abbrev pub left : ℕ → Pointer → ℕ → FirstnInfo
left x out p = record (test_info init2_map root init2_reweight x) {
  out = out;
  out2 = out;
  outpos = p;
}

pub left-IsReady :
    (x : ℕ) (out : Pointer) (p : ℕ) (garbage : List ℤ)
    → length garbage ≡ 3
    → IsReady level (length garbage ∷ []) main_globals (at_position 0 (left x out p))
unfolding test_info main_globals init2_reweight
left-IsReady x out p garbage len = record {
  tree = init2-IsBuilt.tree;
  top = init2-IsBuilt.tree.nodes 0 root (init2-IsTuned).1.root_at;
  weights = omega (arith, length-replicate {A = ℕ} osd_sum 65536);
  no_args = refl;
  no_fallback = (init2-IsTuned).1.fallback_tries;
  devices = refl;
  room = (length garbage, refl, omega (arith, len));
  room2 = λ nz. (length garbage, refl, omega (arith, len));
}

pub left-IsFuelled : (x : ℕ) (out : Pointer) (p : ℕ) → IsFuelled level init2_fuel (left x out p)
unfolding test_info
left-IsFuelled x out p =
    let tuned = init2-IsTuned.1 in
    record {
      inner = omega (arith, tuned.local_tries, init2-IsBuilt.low 0 root tuned.root_at);
      outer = omega (arith, tuned.tries);
      counts = omega (arith, tuned.tries, tuned.local_tries);
    }

-- A driver that gives each object three entries.
abbrev PlacesThree : (FirstnInfo → ℕ → Outcome (ℕ × FirstnInfo × Mem)) → Type 0
PlacesThree choose =
    (i x : ℕ) (out : Pointer) (p : ℕ)
    → (mem : Mem) × (choose (record (left x out p) { x = 222 + i }) i
        ≡ ok (3, left (222 + i) (some 0) 3, mem))

objects_total :
    (choose : FirstnInfo → ℕ → Outcome (ℕ × FirstnInfo × Mem))
    → PlacesThree choose
    → (rounds i x : ℕ) (out : Pointer) (p : ℕ)
    → (rs : List (ℕ × Mem)) × (object_loop choose rounds i (left x out p) ≡ ok rs)
      × (length rs ≡ rounds)
unfolding object_loop
objects_total choose h zero i x out p = ([], refl, refl)
objects_total choose h (suc rounds) i x out p =
    let (mem, e) = h i x out p in
    let (rs, e', k) = objects_total choose h rounds (i + 1) (222 + i) (some 0) 3 in
    ((3, mem) ∷ rs, rw (e, e') refl, ap suc k)

abbrev by_threads : (ℕ → List ℤ) → FirstnInfo → ℕ → Outcome (ℕ × FirstnInfo × Mem)
by_threads garbage f i = pthread_crush_choose_firstn init2_fuel main_globals (garbage i) f

pthread-PlacesThree :
    (garbage : ℕ → List ℤ) → ((i : ℕ) → length (garbage i) ≡ 3) → PlacesThree (by_threads garbage)
unfolding test_info
pthread-PlacesThree garbage len i x out p =
    pthread_crush_choose_firstn_total init2_fuel main_globals (garbage i)
      (record (left x out p) { x = 222 + i }) (left-IsReady (222 + i) out p (garbage i) (len i))
      (left-IsFuelled (222 + i) out p)

test_pthread_total :
    (garbage : ℕ → List ℤ)
    → ((i : ℕ) → length (garbage i) ≡ 3)
    → (rounds : ℕ)
    → (rs : List (ℕ × Mem)) × (test_pthread init2_fuel main_globals init2_map init2_reweight garbage
          rounds
        ≡ ok rs)
      × (length rs ≡ rounds)
unfolding test_pthread test_info
test_pthread_total garbage len rounds =
    let (rs, e, k) =
      objects_total (by_threads garbage) (pthread-PlacesThree garbage len) rounds 0 222 none 0 in
    (rs, rw (init2-IsTuned).1.root_at e, k)

-- A run of `main` that came to its call of `test_pthreadPool`.
pub record Completes (r : Outcome Report) : Type 0 where
  pub report : Report
  pub returned : r ≡ ok report
  pub printed : report.lines ≡ map line_of init2_map.buckets
  pub test_all : length report.by_test ≡ object_num
  pub test2_all : length report.by_test2 ≡ object_num
  pub pthread_all : length report.by_pthread ≡ object_num

-- With the fuel of `init2_fuel`, and whatever the new arrays of three entries hold, `main` comes to its
-- call of `test_pthreadPool`, with the workers of `test_pthread` run one after the other: it prints every
-- bucket of the map with all its items, and each of the first three drivers has a result for each of the
-- 256 objects. No read or write on the way is outside an array.
pub crush_main-Completes :
    (garbage : ℕ → ℕ → List ℤ)
    → ((d i : ℕ) → length (garbage d i) ≡ 3)
    → Completes (crush_main init2_fuel garbage)
unfolding crush_main
crush_main-Completes garbage len =
    let (a, ea, la) = test_total (garbage 0) (len 0) object_num 0 in
    let (b, eb, lb) = test_total (garbage 1) (len 1) object_num 0 in
    let (c, ec, lc) = test_pthread_total (garbage 2) (len 2) object_num in
    let eb' = test2-eq-test init2_fuel init2_map init2_reweight (garbage 1) object_num 0 ∙ eb in
    record {
      report = record {
        lines = map line_of init2_map.buckets;
        by_test = a;
        by_test2 = b;
        by_pthread = c;
      };
      returned = rw (init2_returns, print_buckets-init2_map, ea, eb', ec) refl;
      printed = refl;
      test_all = la;
      test2_all = lb;
      pthread_all = lc;
    }
