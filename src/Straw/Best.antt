-- ===== src/Straw/Best.antt =====
-- The loop over the straws finds the first of the longest ones.
use my_ceph.Common.{
  ℕ, zero, suc, ◌+◌, ◌<◌, ◌≡◌, ◌≢◌, refl, sym, ap, subst, arith, ◌⊎◌, inl, inr, dec_lt, ℕ_discrete,
  true, false, ◌||◌, ◌==◌,
}
use my_ceph.Common.{ℤ, pos, pos_part, neg_part, ◌≤ℤ◌, ◌<ℤ◌, ltb_ℤ, Outcome, ok}
use my_ceph.Straw.{straw2_loop}

-- Index `high` has the longest straw of the first `n`, and every one before it is shorter.
pub record IsBest (straw : ℕ → ℤ) (n high : ℕ) : Type 0 where
  pub in_range : high < n
  pub longest : (j : ℕ) → j < n → straw j ≤ℤ straw high
  pub first : (j : ℕ) → j < high → straw j <ℤ straw high

-- There is one such index.
pub IsBest_unique : {straw : ℕ → ℤ} {n h k : ℕ} → IsBest straw n h → IsBest straw n k → h ≡ k
IsBest_unique {h} {k} p q = elim (dec_lt h k) [
  | yes lt ↦ absurd (omega (arith, q.first h lt, p.longest k q.in_range))
  | no ge ↦ elim (dec_lt k h) [
    | yes lt ↦ absurd (omega (arith, p.first k lt, q.longest h p.in_range))
    | no le ↦ omega arith
  ]
]

-- If only straw `k` changes, and does not get shorter, the best index stays or becomes `k`.
pub IsBest_raise :
    {straw straw' : ℕ → ℤ} {n h h' : ℕ} (k : ℕ)
    → ((j : ℕ) → j ≢ k → straw' j ≡ straw j)
    → straw k ≤ℤ straw' k
    → IsBest straw n h
    → IsBest straw' n h'
    → (h' ≡ h) ⊎ (h' ≡ k)
IsBest_raise {straw} {straw'} {h} {h'} k same up p q = elim (ℕ_discrete h' k) [
  | yes e ↦ inr e
  | no ne ↦ elim (dec_lt h' h) [
    | yes lt ↦ absurd (
        omega (
          arith,
          p.first h' lt,
          q.longest h p.in_range,
          grows h,
          ap pos_part (same h' ne),
          ap neg_part (same h' ne),
        ))
    | no ge ↦ elim (dec_lt h h') [
      | yes lt ↦ absurd (
          omega (
            arith,
            q.first h lt,
            p.longest h' q.in_range,
            grows h,
            ap pos_part (same h' ne),
            ap neg_part (same h' ne),
          ))
      | no le ↦ inl (omega arith)
    ]
  ]
]
  where
    grows : (j : ℕ) → straw j ≤ℤ straw' j
    grows j = elim (ℕ_discrete j k) [
      | yes e ↦ subst (λ t. straw t ≤ℤ straw' t) (sym e) up
      | no ne ↦ omega (arith, ap pos_part (same j ne), ap neg_part (same j ne))
    ]

module _ {straw : ℕ → ℤ} where
  IsBest-suc :
      {i high : ℕ} → IsBest straw i high → straw i ≤ℤ straw high → IsBest straw (suc i) high
  IsBest-suc {i} {high} b le = record {
    in_range = omega (arith, b.in_range);
    longest = λ j lt. elim (ℕ_discrete j i) [
      | yes e ↦ subst (λ t. straw t ≤ℤ straw high) (sym e) le
      | no ne ↦ b.longest j (omega arith)
    ];
    first = b.first;
  }

  IsBest-new : {i high : ℕ} → IsBest straw i high → straw high <ℤ straw i → IsBest straw (suc i) i
  IsBest-new {i} {high} b lt = record {
    in_range = omega arith;
    longest = λ j h. elim (ℕ_discrete j i) [
      | yes e ↦ subst (λ t. straw t ≤ℤ straw i) (sym e) (omega arith)
      | no ne ↦ omega (arith, b.longest j (omega arith))
    ];
    first = λ j h. omega (arith, b.longest j h);
  }

module _ (draw : ℕ → Outcome ℤ) (straw : ℕ → ℤ) where
  -- One turn of the loop after the first: the straw is longer than the best so far, or it is not.
  loop_longer :
      (rounds : ℕ) {i : ℕ} (high : ℕ)
      → 0 < i
      → draw i ≡ ok (straw i)
      → straw high <ℤ straw i
      → straw2_loop draw (suc rounds) i high (straw high)
        ≡ straw2_loop draw rounds (i + 1) i (straw i)
  unfolding straw2_loop
  loop_longer rounds {i} high p e lt = rw (e, better i high p lt)
    where
      better :
          (i high : ℕ)
          → 0 < i
          → straw high <ℤ straw i
          → (i == 0 || ltb_ℤ (straw high) (straw i)) ≡ true
      better i high p lt = ground arith

  loop_shorter :
      (rounds : ℕ) {i : ℕ} (high : ℕ)
      → 0 < i
      → draw i ≡ ok (straw i)
      → straw i ≤ℤ straw high
      → straw2_loop draw (suc rounds) i high (straw high)
        ≡ straw2_loop draw rounds (i + 1) high (straw high)
  unfolding straw2_loop
  loop_shorter rounds {i} high p e le = rw (e, worse)
    where
      worse : (i == 0 || ltb_ℤ (straw high) (straw i)) ≡ false
      worse = ground arith

  -- From a position after the first, with the best index so far.
  loop_from :
      (rounds i high : ℕ)
      → 0 < i
      → ((j : ℕ) → j < i + rounds → draw j ≡ ok (straw j))
      → IsBest straw i high
      → (best : ℕ) × (straw2_loop draw rounds i high (straw high) ≡ ok best)
        × IsBest straw (i + rounds) best
  loop_from zero i high pos_i drawn b =
      (high, (unfold straw2_loop in refl), subst (λ t. IsBest straw t high) (omega arith) b)
  loop_from (suc rounds) i high pos_i drawn b =
      elim (dec_lt (pos_part (straw high) + neg_part (straw i))
        (pos_part (straw i) + neg_part (straw high))) [
          | yes lt ↦ rw (loop_longer rounds high pos_i (drawn i (omega arith)) lt) (
              shifted i
                (loop_from rounds (i + 1) i (omega arith) later (moved i (IsBest-new b lt))))
          | no ge ↦ rw (loop_shorter rounds high pos_i (drawn i (omega arith)) (omega arith)) (
              shifted high (
                loop_from rounds (i + 1) high (omega arith) later
                  (moved high (IsBest-suc b (omega arith)))))
        ]
    where
      later : (j : ℕ) → j < i + 1 + rounds → draw j ≡ ok (straw j)
      later j lt = drawn j (omega arith)

      moved : (h : ℕ) → IsBest straw (suc i) h → IsBest straw (i + 1) h
      moved h c = subst (λ t. IsBest straw t h) (omega arith) c

      shifted :
          (h : ℕ)
          → (best : ℕ) × (straw2_loop draw rounds (i + 1) h (straw h) ≡ ok best)
            × IsBest straw (i + 1 + rounds) best
          → (best : ℕ) × (straw2_loop draw rounds (i + 1) h (straw h) ≡ ok best)
            × IsBest straw (i + suc rounds) best
      shifted h (best, e, c) = (best, e, subst (λ t. IsBest straw t best) (omega arith) c)

  -- If every item draws a straw, the loop ends at the best of them.
  pub straw2_loop-IsBest :
      (size : ℕ)
      → 0 < size
      → ((j : ℕ) → j < size → draw j ≡ ok (straw j))
      → (best : ℕ) × (straw2_loop draw size 0 0 (pos 0) ≡ ok best) × IsBest straw size best
  unfolding straw2_loop
  straw2_loop-IsBest zero h drawn = absurd (omega arith)
  straw2_loop-IsBest (suc n) h drawn = rw (drawn 0 (omega arith)) (
      let (best, e, r) = loop_from n 1 0 (omega arith) (λ j lt. drawn j (omega arith)) only in
      (best, e, subst (λ t. IsBest straw t best) (omega arith) r))
    where
      zero_only : (j : ℕ) → j < 1 → ◌≡◌ {A = ℕ} 0 j
      zero_only j lt = omega arith

      only : IsBest straw 1 0
      only = record {
        in_range = omega arith;
        longest = λ j lt. subst (λ t. straw t ≤ℤ straw 0) (zero_only j lt) (omega arith);
        first = λ j lt. absurd (omega arith);
      }
