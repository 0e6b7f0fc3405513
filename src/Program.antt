-- ===== src/Program.antt =====
-- CRUSH_Research/main.cpp: `main` up to its call of `test_pthreadPool`: it builds the map, prints it and
-- runs the first three drivers. What the drivers place is thrown away, and the clocks and the titles of
-- the output are left out; the model returns what is placed and what is printed of the map.
pub mod Completes
use my_ceph.Common.{ℕ, zero, suc, ◌+◌, List, [], ◌∷◌, get_elem?, Outcome, ok, from_option, ◌>>=◌, ℤ}
use my_ceph.CrushMap.{CrushMap, CrushBucketStraw2}
use my_ceph.Mapper.Memory.{Mem}
use my_ceph.Mapper.Loops.{Fuel}
use my_ceph.Build.{init2, init2_weight, init2_reweight, main_buckets, osd_sum}
use my_ceph.Drivers.{test, test2}
use my_ceph.Workers.{Globals, test_pthread}

-- What is printed of a bucket, behind its index.
pub record Line : Type 0 where
  pub id : ℤ
  pub type : ℕ
  pub weight : ℕ
  pub size : ℕ
  pub items : List ℤ

-- `h.items[j]`, from item `j` on.
unfoldable pub print_items : CrushBucketStraw2 → ℕ → ℕ → Outcome (List ℤ)
print_items b zero j = ok []
print_items b (suc rounds) j = do
  item ← from_option (get_elem? b.h.items j)
  rest ← print_items b rounds (j + 1)
  ok (item ∷ rest)

-- `buckets[i]`, from bucket `i` on.
unfoldable pub print_buckets : CrushMap → ℕ → ℕ → Outcome (List Line)
unfolding print_items
print_buckets map zero i = ok []
print_buckets map (suc rounds) i = do
  b ← from_option (get_elem? map.buckets i)
  items ← print_items b b.h.size 0
  rest ← print_buckets map rounds (i + 1)
  ok (
      record { id = b.h.id; type = b.h.type; weight = b.h.weight; size = b.h.size; items = items }
      ∷ rest)

-- The globals behind `init2`.
pub main_globals : Globals
main_globals = record { weight = init2_weight; weight_max = osd_sum; pthread_outpos = 0 }

-- `object_num = 256`
abbrev pub object_num : ℕ
object_num = 256

-- What a run comes to: the lines, and what each driver has placed.
pub record Report : Type 0 where
  pub lines : List Line
  pub by_test : List (ℕ × Mem)
  pub by_test2 : List (ℕ × Mem)
  pub by_pthread : List (ℕ × Mem)

-- `main` up to its call of `test_pthreadPool`. `garbage d i` is what the new array of driver `d` for object `i` holds.
pub crush_main : Fuel → (ℕ → ℕ → List ℤ) → Outcome Report
unfolding print_buckets main_globals
crush_main fuel garbage = do
  map ← init2 main_buckets
  lines ← print_buckets map map.max_buckets 0
  by_test ← test fuel map init2_reweight (garbage 0) object_num 0
  by_test2 ← test2 fuel map init2_reweight (garbage 1) object_num 0
  by_pthread ← test_pthread fuel main_globals map init2_reweight (garbage 2) object_num
  ok record { lines = lines; by_test = by_test; by_test2 = by_test2; by_pthread = by_pthread }
