-- ===== src/Workers/Objects.antt =====
-- CRUSH_Research/main.cpp: `test_pthread` against `test`, object by object.
use my_ceph.Common.{
  ℕ, zero, suc, ◌+◌, ◌≡◌, ◌≢◌, refl, sym, ap, ◌∙◌, subst, List, [], ◌∷◌, get_elem?, none, some,
  Outcome, ok, ok-inj, from_option, >>=-eq-ok, ◌>>=◌, ℤ,
}
use my_ceph.CrushMap.{CrushMap, CrushBucketStraw2}
use my_ceph.Mapper.{crush_choose_firstn}
use my_ceph.Mapper.Memory.{Mem, Pointer}
use my_ceph.Mapper.Turn.Same.{IsTyped}
use my_ceph.Mapper.Loops.{Fuel}
use my_ceph.Build.{osd_sum}
use my_ceph.Drivers.{test_args, test}
use my_ceph.Workers.{
  FirstnInfo, Globals, pthread_crush_choose_firstn, test_info, object_loop, test_pthread,
}
use my_ceph.Workers.Sequence.{IsForThree, same_args, pthread_crush_choose_firstn-same}

-- Each object of a run has been given three devices.
pub record AllThree (rs : List (ℕ × Mem)) : Type 0 where
  pub three : (j : ℕ) (r : ℕ × Mem) → get_elem? rs j ≡ some r → r.0 ≡ 3

-- A map whose first bucket, `root`, has items, with no bucket of the type of a device, stable
-- tunables and the number of devices that main.cpp counts.
pub record IsTestMap (g : Globals) (m : CrushMap) (root : CrushBucketStraw2) : Type 0 where
  pub typed : IsTyped m
  pub root_at : get_elem? m.buckets 0 ≡ some root
  pub full : root.h.size ≢ 0
  pub stable : m.chooseleaf_stable ≢ 0
  pub weight_max : g.weight_max ≡ osd_sum

module _ (fuel : Fuel) (g : Globals) (m : CrushMap) (root : CrushBucketStraw2) (reweight : List ℕ)
    (garbage : ℕ → List ℤ) (s : IsTestMap g m root) where
  -- The structure as the object before has left it.
  abbrev left : ℕ → Pointer → ℕ → FirstnInfo
  left x out p = record (test_info m root reweight x) { out = out; out2 = out; outpos = p }

  left-IsForThree : (x : ℕ) (out : Pointer) (p : ℕ) → IsForThree g (left x out p)
  unfolding test_info
  left-IsForThree x out p = record {
    typed = s.typed;
    full = s.full;
    devices = refl;
    stable = s.stable;
    numrep = refl;
    out_size = refl;
    weight_max = s.weight_max;
  }

  -- What `test` does with an object, and what is behind it.
  abbrev placed_then : ℕ → ℕ → CrushBucketStraw2 → Outcome (List (ℕ × Mem))
  placed_then rounds i root = do
    r ← crush_choose_firstn 2 fuel (test_args m root reweight (222 + i)) (garbage i ∷ [])
    rest ← test fuel m reweight garbage rounds (i + 1)
    ok (r ∷ rest)

  abbrev loop_from : ℕ → ℕ → FirstnInfo → Outcome (List (ℕ × Mem))
  loop_from = object_loop (λ f i. pthread_crush_choose_firstn fuel g (garbage i) f)

  object_same :
      (i x : ℕ) (out : Pointer) (p : ℕ) (r : ℕ × Mem)
      → r.0 ≡ 3
      → crush_choose_firstn 2 fuel (test_args m root reweight (222 + i)) (garbage i ∷ []) ≡ ok r
      → pthread_crush_choose_firstn fuel g (garbage i) (record (left x out p) { x = 222 + i })
        ≡ ok (3, left (222 + i) (some 0) 3, r.1)
  unfolding test_info test_args same_args
  object_same i x out p r e h =
      pthread_crush_choose_firstn-same fuel g (garbage i) (record (left x out p) { x = 222 + i })
        r.1 (left-IsForThree (222 + i) out p) (h ∙ ap (λ (n : ℕ). ok (n, r.1)) e)

  objects_same :
      (rounds i x : ℕ) (out : Pointer) (p : ℕ) (rs : List (ℕ × Mem))
      → test fuel m reweight garbage rounds i ≡ ok rs
      → AllThree rs
      → loop_from rounds i (left x out p) ≡ ok rs
  unfolding test object_loop
  objects_same zero i x out p rs h a = h
  objects_same (suc rounds) i x out p rs h a =
      let hb = subst (λ o. (from_option o >>= placed_then rounds i) ≡ ok rs) s.root_at h in
      let (r, e1, h2) =
        >>=-eq-ok
          (crush_choose_firstn 2 fuel (test_args m root reweight (222 + i)) (garbage i ∷ [])) _
          hb in
      let (rest, e2, h3) = >>=-eq-ok (test fuel m reweight garbage rounds (i + 1)) _ h2 in
      let a' = subst AllThree (sym (ok-inj h3)) a in
      let behind =
        objects_same rounds (i + 1) (222 + i) (some 0) 3 rest e2
          (record { three = λ j r. a'.three (suc j) r }) in
      ap
        (λ (o : Outcome (ℕ × FirstnInfo × Mem)). o >>= λ (outpos, f', mem).
          loop_from rounds (i + 1) f' >>= λ rest. ok ((outpos, mem) ∷ rest))
        (object_same i x out p r (a'.three 0 r refl) e1)
      ∙ ap (λ (o : Outcome (List (ℕ × Mem))). o >>= λ rest. ok ((3, r.1) ∷ rest)) behind
      ∙ ap (λ (n : ℕ). ok ((n, r.1) ∷ rest)) (sym (a'.three 0 r refl))
      ∙ h3

-- On a map of this kind, whenever `test` gives every object three devices, `test_pthread`, its
-- workers run in the order of their creation, gives each object the same three devices in the same
-- order, over new arrays with the same contents.
pub test_pthread-eq-test :
    (fuel : Fuel) (g : Globals) (m : CrushMap) (root : CrushBucketStraw2) (reweight : List ℕ)
    (garbage : ℕ → List ℤ) (rounds : ℕ) (rs : List (ℕ × Mem))
    → IsTestMap g m root
    → test fuel m reweight garbage rounds 0 ≡ ok rs
    → AllThree rs
    → test_pthread fuel g m reweight garbage rounds ≡ ok rs
unfolding test_pthread test_info object_loop
test_pthread-eq-test fuel g m root reweight garbage rounds rs s h a =
    rw s.root_at (objects_same fuel g m root reweight garbage s rounds 0 222 none 0 rs h a)
