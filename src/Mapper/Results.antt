-- ===== src/Mapper/Results.antt =====
-- What `crush_choose_firstn` leaves in `out`: distinct items of the wanted type, in service.
use my_ceph.Common.{
  ℕ, zero, suc, ◌+◌, ◌-◌, ◌≤◌, ◌<◌, ◌==◌, ◌≡◌, ◌≢◌, refl, sym, ◌∙◌, subst, arith, Bool, true, false,
  ℕ_discrete, if◌then◌else◌, ℤ, pos, ◌<ℤ◌, Outcome, ok, ◌>>=◌, >>=-eq-ok, ok-inj,
}
use my_ceph.Mapper.{Firstn, leaf_firstn, attempt, replicas, crush_choose_firstn}
use my_ceph.Mapper.Memory.{
  Mem, read, write, Keeps, Keeps-refl, Keeps-trans, Keeps-mono, write-Keeps, read-write,
}
use my_ceph.Mapper.Turn.{item_type, is_out}
use my_ceph.Mapper.Turn.Accept.{IsFit, LeafKeeps}
use my_ceph.Mapper.Loops.{Fuel, place}
use my_ceph.Mapper.Loops.Accept.{Placed, place-Placed}

-- An item that a call may place: below `max_devices`, of the wanted type, and in service if it is
-- a device.
pub record IsReplica (f : Firstn) (item : ℤ) : Type 0 where
  pub below : item <ℤ f.map.max_devices
  pub typed : item_type f.map item ≡ ok f.type
  pub in_service : f.type ≡ 0 → is_out f.weight f.weight_max item f.x ≡ ok false

-- Entry `i` of `out` holds a replica that stands at no earlier entry.
pub record IsEntry (f : Firstn) (mem : Mem) (i : ℕ) : Type 0 where
  pub item : ℤ
  pub held : read mem f.out i ≡ ok item
  pub replica : IsReplica f item
  pub distinct : (j : ℕ) → j < i → read mem f.out j ≢ ok item

-- From entry `lo`, with at most `room` entries to fill, the entries below `hi` have been filled,
-- and no array has changed below `lo`.
pub record Filled (f : Firstn) (lo room : ℕ) (mem : Mem) (hi : ℕ) (mem' : Mem) : Type 0 where
  pub grows : lo ≤ hi
  pub bounded : hi ≤ lo + room
  pub keeps : Keeps lo mem mem'
  pub entries : (i : ℕ) → lo ≤ i → i < hi → IsEntry f mem' i

-- The first value of `rep`.
abbrev pub first_rep : Firstn → ℕ
first_rep f = if f.stable == 0 then f.outpos else 0

-- The recursive call keeps the entries below its `outpos`.
abbrev ChooseKeeps : (Firstn → Mem → Outcome (ℕ × Mem)) → Type 0
ChooseKeeps choose =
    (g : Firstn) (m : Mem) (q : ℕ) (m' : Mem) → choose g m ≡ ok (q, m') → Keeps g.outpos m m'

module _ (choose : Firstn → Mem → Outcome (ℕ × Mem)) (keeps : ChooseKeeps choose) (fuel : Fuel)
    (f : Firstn) where
  attempt-LeafKeeps : (rep outpos count : ℕ) → LeafKeeps (attempt f choose rep outpos count)
  unfolding attempt leaf_firstn
  attempt-LeafKeeps rep outpos count b s m q m' e = keeps (leaf_firstn f outpos count b s) m q m' e

  fit-IsReplica :
      (rep outpos count : ℕ) {item : ℤ}
      → IsFit (attempt f choose rep outpos count) item
      → IsReplica f item
  unfolding attempt
  fit-IsReplica rep outpos count w = record {
    below = w.below;
    typed = w.typed;
    in_service = w.in_service;
  }

  attempt-Placed :
      (rep outpos count : ℕ) (item : ℤ) (mem : Mem) (p : Bool) (item' : ℤ) (m1 : Mem)
      → place fuel.outer fuel.inner (attempt f choose rep outpos count) 0 item mem
        ≡ ok (p, item', m1)
      → Placed (attempt f choose rep outpos count) mem p item' m1
  attempt-Placed rep outpos count item mem p item' m1 e =
      place-Placed (attempt f choose rep outpos count) (attempt-LeafKeeps rep outpos count)
        fuel.outer fuel.inner 0 item mem p item' m1 e

  -- A replica is written behind the results so far.
  Filled-one :
      (rep outpos count rounds : ℕ) (item' : ℤ) (mem m1 m2 : Mem) (hi : ℕ) (mem' : Mem)
      → Placed (attempt f choose rep outpos (suc count)) mem true item' m1
      → write m1 f.out outpos item' ≡ ok m2
      → Filled f (outpos + 1) rounds m2 hi mem'
      → Filled f outpos (suc rounds) mem hi mem'
  unfolding attempt
  Filled-one rep outpos count rounds item' mem m1 m2 hi mem' w e r = record {
    grows = omega (arith, r.grows);
    bounded = omega (arith, r.bounded);
    keeps = Keeps-trans w.keeps (Keeps-trans written (Keeps-mono (omega arith) r.keeps));
    entries = λ i lo lt. elim (ℕ_discrete outpos i) [
      | yes here ↦ subst (IsEntry f mem') here new_entry
      | no later ↦ r.entries i (omega arith) lt
    ];
  }
    where
      written : Keeps outpos m1 m2
      written = write-Keeps outpos m1 f.out outpos item' e (omega arith)

      new_entry : IsEntry f mem' outpos
      new_entry = record {
        item = item';
        held = r.keeps.same f.out outpos (omega arith) ∙ read-write m1 f.out outpos item' e;
        replica = fit-IsReplica rep outpos (suc count) (w.fit refl);
        distinct = λ j lt h.
            (w.new refl).differs j lt
              (sym (written.same f.out j lt) ∙ sym (r.keeps.same f.out j (omega arith)) ∙ h);
      }

  -- A replica is given up.
  skipped_one :
      (rep outpos count rounds : ℕ) (item' : ℤ) (mem m1 : Mem) (hi : ℕ) (mem' : Mem)
      → Placed (attempt f choose rep outpos (suc count)) mem false item' m1
      → Filled f outpos rounds m1 hi mem'
      → Filled f outpos (suc rounds) mem hi mem'
  unfolding attempt
  skipped_one rep outpos count rounds item' mem m1 hi mem' w r = record {
    grows = r.grows;
    bounded = omega (arith, r.bounded);
    keeps = Keeps-trans w.keeps r.keeps;
    entries = r.entries;
  }

  nothing : (rounds outpos : ℕ) (mem : Mem) → Filled f outpos rounds mem outpos mem
  nothing rounds outpos mem = record {
    grows = omega arith;
    bounded = omega arith;
    keeps = Keeps-refl outpos mem;
    entries = λ i lo lt. absurd (omega arith);
  }

  pub replicas-Filled :
      (rounds rep outpos count : ℕ) (item : ℤ) (mem : Mem) (hi : ℕ) (mem' : Mem)
      → replicas choose fuel f rounds rep outpos count item mem ≡ ok (hi, mem')
      → Filled f outpos rounds mem hi mem' × (hi ≤ outpos + count)
  unfolding replicas
  replicas-Filled zero rep outpos count item mem hi mem' h =
      subst (λ (r : ℕ × Mem). Filled f outpos 0 mem r.0 r.1 × (r.0 ≤ outpos + count)) (ok-inj h)
        (nothing 0 outpos mem, omega arith)
  replicas-Filled (suc rounds) rep outpos zero item mem hi mem' h =
      subst (λ (r : ℕ × Mem). Filled f outpos (suc rounds) mem r.0 r.1 × (r.0 ≤ outpos + 0))
        (ok-inj h) (nothing (suc rounds) outpos mem, omega arith)
  replicas-Filled (suc rounds) rep outpos (suc count) item mem hi mem' h =
      let ((p, item', m1), e, k) =
        >>=-eq-ok (place fuel.outer fuel.inner (attempt f choose rep outpos (suc count)) 0 item mem)
          _ h in
      after (replicas-Filled rounds (rep + 1)) p item' m1
        (attempt-Placed rep outpos (suc count) item mem p item' m1 e) k
    where
      Rest : Type 0
      Rest =
          (o c : ℕ) (item : ℤ) (mem : Mem) (hi : ℕ) (mem' : Mem)
          → replicas choose fuel f rounds (rep + 1) o c item mem ≡ ok (hi, mem')
          → Filled f o rounds mem hi mem' × (hi ≤ o + c)

      after :
          Rest
          → (p : Bool) (item' : ℤ) (m1 : Mem)
          → Placed (attempt f choose rep outpos (suc count)) mem p item' m1
          → (elim p [
            | Bool.true ↦
                (write m1 f.out outpos item' >>= λ m2.
                replicas choose fuel f rounds (rep + 1) (outpos + 1) count item' m2)
            | Bool.false ↦ replicas choose fuel f rounds (rep + 1) outpos (suc count) item' m1
          ])
            ≡ ok (hi, mem')
          → Filled f outpos (suc rounds) mem hi mem' × (hi ≤ outpos + suc count)
      after rest true item' m1 w k =
          let (m2, e, k2) = >>=-eq-ok (write m1 f.out outpos item') _ k in
          let (r, le) = rest (outpos + 1) count item' m2 hi mem' k2 in
          (Filled-one rep outpos count rounds item' mem m1 m2 hi mem' w e r, omega arith)
      after rest false item' m1 w k =
          let (r, le) = rest outpos (suc count) item' m1 hi mem' k in
          (skipped_one rep outpos count rounds item' mem m1 hi mem' w r, le)

-- A call changes no entry below its `outpos`, in any array.
pub choose-Keeps :
    (depth : ℕ) (fuel : Fuel) (g : Firstn) (m : Mem) (q : ℕ) (m' : Mem)
    → crush_choose_firstn depth fuel g m ≡ ok (q, m')
    → Keeps g.outpos m m'
unfolding crush_choose_firstn
choose-Keeps zero fuel g m q m' h = absurd (cc)
choose-Keeps (suc depth) fuel g m q m' h =
    (replicas-Filled (crush_choose_firstn depth fuel) (choose-Keeps depth fuel) fuel g
      (g.numrep - first_rep g) (first_rep g) g.outpos g.out_size (pos 0) m q m' h).0.keeps

-- Whenever `crush_choose_firstn` returns a position, the entries of `out` from `outpos` up to it
-- hold replicas, each unlike all the entries before it; at most `out_size` entries are filled, and
-- no more than `numrep` less the first value of `rep`; and no array has changed below `outpos`.
pub crush_choose_firstn-Filled :
    (depth : ℕ) (fuel : Fuel) (f : Firstn) (mem : Mem) (hi : ℕ) (mem' : Mem)
    → crush_choose_firstn depth fuel f mem ≡ ok (hi, mem')
    → Filled f f.outpos (f.numrep - first_rep f) mem hi mem' × (hi ≤ f.outpos + f.out_size)
unfolding crush_choose_firstn
crush_choose_firstn-Filled zero fuel f mem hi mem' h = absurd (cc)
crush_choose_firstn-Filled (suc depth) fuel f mem hi mem' h =
    replicas-Filled (crush_choose_firstn depth fuel) (choose-Keeps depth fuel) fuel f
      (f.numrep - first_rep f) (first_rep f) f.outpos f.out_size (pos 0) mem hi mem' h
