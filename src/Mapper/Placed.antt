-- ===== src/Mapper/Placed.antt =====
-- A call that fills three entries has placed each replica at the first attempt: the loop over `rep`
-- taken apart.
use my_ceph.Common.{
  ℕ, suc, ◌+◌, ◌-◌, ◌==◌, ◌≡◌, ◌≢◌, refl, sym, ◌∙◌, subst, arith, Bool, true, false, if◌then◌else◌,
  Outcome, ok, >>=-eq-ok, ◌>>=◌, ℤ, pos,
}
use my_ceph.Mapper.{Firstn, attempt, replicas, crush_choose_firstn}
use my_ceph.Mapper.Memory.{Mem, write}
use my_ceph.Mapper.Loops.{Fuel, place}
use my_ceph.Mapper.Results.{replicas-Filled, choose-Keeps}

-- Replica `k` was placed at position `k`, when `item` was left over and `count` replicas were to go.
pub record IsPlacedAt (choose : Firstn → Mem → Outcome (ℕ × Mem)) (fuel : Fuel) (f : Firstn)
    (k count : ℕ) (item : ℤ) (mem : Mem) (item' : ℤ) (mem' : Mem) : Type 0 where
  pub between : Mem
  pub placed :
      place fuel.outer fuel.inner (attempt f choose k k count) 0 item mem
      ≡ ok (true, item', between)
  pub written : write between f.out k item' ≡ ok mem'

module _ (depth : ℕ) (fuel : Fuel) (f : Firstn) where
  one_placed :
      (rounds k count : ℕ) (item : ℤ) (mem mem' : Mem)
      → replicas (crush_choose_firstn depth fuel) fuel f (suc rounds) k k (suc count) item mem
        ≡ ok (k + suc rounds, mem')
      → (item' : ℤ) × (mem1 : Mem) × IsPlacedAt
          (crush_choose_firstn depth fuel)
          fuel
          f
          k
          (suc count)
          item
          mem
          item'
          mem1
        × (replicas (crush_choose_firstn depth fuel) fuel f rounds (k + 1) (k + 1) count item' mem1
            ≡ ok (k + suc rounds, mem'))
  unfolding replicas
  one_placed rounds k count item mem mem' h =
      let ((p, item', m1), e, r) =
        >>=-eq-ok
          (place fuel.outer fuel.inner (attempt f (crush_choose_firstn depth fuel) k k (suc count))
            0 item mem)
          _ h in
      after p item' m1 e r
    where
      after :
          (p : Bool) (item' : ℤ) (m1 : Mem)
          → place fuel.outer fuel.inner
              (attempt f (crush_choose_firstn depth fuel) k k (suc count))
              0
              item
              mem
            ≡ ok (p, item', m1)
          → (elim p [
            | Bool.true ↦
                (write m1 f.out k item' >>= λ m2.
                replicas
                  (crush_choose_firstn depth fuel)
                  fuel
                  f
                  rounds
                  (k + 1)
                  (k + 1)
                  count
                  item'
                  m2)
            | Bool.false ↦
                replicas
                  (crush_choose_firstn depth fuel)
                  fuel
                  f
                  rounds
                  (k + 1)
                  k
                  (suc count)
                  item'
                  m1
          ])
            ≡ ok (k + suc rounds, mem')
          → (item' : ℤ) × (mem1 : Mem) × IsPlacedAt
              (crush_choose_firstn depth fuel)
              fuel
              f
              k
              (suc count)
              item
              mem
              item'
              mem1
            × (replicas
                  (crush_choose_firstn depth fuel)
                  fuel
                  f
                  rounds
                  (k + 1)
                  (k + 1)
                  count
                  item'
                  mem1
                ≡ ok (k + suc rounds, mem'))
      after true item' m1 e r =
          let (m2, w, r2) = >>=-eq-ok (write m1 f.out k item') _ r in
          (item', m2, record { between = m1; placed = e; written = w }, r2)
      after false item' m1 e r =
          let (filled, le) =
            replicas-Filled (crush_choose_firstn depth fuel) (choose-Keeps depth fuel) fuel f rounds
              (k + 1) k (suc count) item' m1 (k + suc rounds) mem' r in
          absurd (omega (arith, filled.bounded))

  pub record Three (mem mem' : Mem) : Type 0 where
    pub item0 : ℤ
    pub item1 : ℤ
    pub item2 : ℤ
    pub mem1 : Mem
    pub mem2 : Mem
    pub first : IsPlacedAt (crush_choose_firstn depth fuel) fuel f 0 3 (pos 0) mem item0 mem1
    pub second : IsPlacedAt (crush_choose_firstn depth fuel) fuel f 1 2 item0 mem1 item1 mem2
    pub third : IsPlacedAt (crush_choose_firstn depth fuel) fuel f 2 1 item1 mem2 item2 mem'

  start :
      (numrep stable outpos out_size : ℕ) (mem : Mem)
      → numrep ≡ 3
      → stable ≢ 0
      → outpos ≡ 0
      → out_size ≡ 3
      → replicas
          (crush_choose_firstn depth fuel)
          fuel
          f
          (numrep - (if stable == 0 then outpos else 0))
          (if stable == 0 then outpos else 0)
          outpos
          out_size
          (pos 0)
          mem
        ≡ replicas (crush_choose_firstn depth fuel) fuel f 3 0 0 3 (pos 0) mem
  start numrep stable outpos out_size mem en ns eo ez = rw (en, eo, ez, nonzero ns) refl
    where
      nonzero : stable ≢ 0 → (stable == 0) ≡ false
      nonzero ns = ground arith

  end_of :
      (m mem' : Mem) (item : ℤ)
      → replicas (crush_choose_firstn depth fuel) fuel f 0 3 3 0 item m ≡ ok (3, mem')
      → m ≡ mem'
  unfolding replicas
  end_of m mem' item e = cc

  -- A stable call for three replicas that returns position 3 has placed each replica in turn.
  pub crush_choose_firstn-Three :
      (mem mem' : Mem)
      → f.numrep ≡ 3
      → f.stable ≢ 0
      → f.outpos ≡ 0
      → f.out_size ≡ 3
      → crush_choose_firstn (suc depth) fuel f mem ≡ ok (3, mem')
      → Three mem mem'
  unfolding crush_choose_firstn
  crush_choose_firstn-Three mem mem' en ns eo ez h =
      let (i0, m1, p0, h1) =
        one_placed 2 0 2 (pos 0) mem mem'
          (sym (start f.numrep f.stable f.outpos f.out_size mem en ns eo ez) ∙ h) in
      let (i1, m2, p1, h2) = one_placed 1 1 1 i0 m1 mem' h1 in
      let (i2, m3, p2, h3) = one_placed 0 2 0 i1 m2 mem' h2 in
      record {
        item0 = i0;
        item1 = i1;
        item2 = i2;
        mem1 = m1;
        mem2 = m2;
        first = p0;
        second = p1;
        third =
            subst (λ m. IsPlacedAt (crush_choose_firstn depth fuel) fuel f 2 1 i1 m2 i2 m)
              (end_of m3 mem' i2 h3) p2;
      }
