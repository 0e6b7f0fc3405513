-- ===== src/ThreadPool/Threads.antt =====
-- The manager's growing of the pool, against the slots of the threads.
use my_ceph.Common.{
  ℕ, zero, suc, ◌+◌, ◌≤◌, ◌<◌, ◌==◌, ltb, leb, ◌&&◌, ◌≡◌, ◌≢◌, refl, sym, ap, ◌∙◌, arith, Bool,
  true, false, if◌then◌else◌, List, [], ◌∷◌, get_elem?, length, some,
}
use my_ceph.ThreadPool.{ThreadPool, number, grow, manager_grow}

-- How many slots a thread has.
unfoldable pub count_live : List ℕ → ℕ
count_live [] = 0
count_live (id ∷ ids) = (if id == 0 then 0 else 1) + count_live ids

count_live-le : (ids : List ℕ) → count_live ids ≤ length ids
unfolding count_live
count_live-le [] = omega arith
count_live-le (id ∷ ids) = bound (id == 0) (count_live-le ids)
  where
    bound :
        (b : Bool)
        → count_live ids ≤ length ids
        → (if b then 0 else 1) + count_live ids ≤ suc (length ids)
    bound true h = omega arith
    bound false h = omega arith

-- What the loop has done to the slots, when it had created `counter` threads before.
record Grows (counter : ℕ) (ids : List ℕ) (r : List ℕ × ℕ) : Type 0 where
  counted : r.1 + count_live ids ≡ counter + count_live r.0
  at_most : counter ≤ number → r.1 ≤ number
  same_slots : length r.0 ≡ length ids
  kept : (j id : ℕ) → id ≢ 0 → get_elem? ids j ≡ some id → get_elem? r.0 j ≡ some id

Grows-if :
    {counter : ℕ} {ids : List ℕ} (b : Bool) {x y : List ℕ × ℕ}
    → (b ≡ true → Grows counter ids x)
    → (b ≡ false → Grows counter ids y)
    → Grows counter ids (if b then x else y)
Grows-if true f g = f refl
Grows-if false f g = g refl

module _ (tid : ℕ → ℕ) (live : (i : ℕ) → tid i ≢ 0) where
  stay : (counter : ℕ) (ids : List ℕ) → Grows counter ids (ids, counter)
  stay counter ids = record {
    counted = refl;
    at_most = λ h. h;
    same_slots = refl;
    kept = λ j id nz e. e;
  }

  kept_slot :
      (counter id : ℕ) (ids : List ℕ) (r : List ℕ × ℕ)
      → Grows counter ids r
      → Grows counter (id ∷ ids) (id ∷ r.0, r.1)
  unfolding count_live
  kept_slot counter id ids r g = record {
    counted = omega (arith, g.counted);
    at_most = g.at_most;
    same_slots = ap suc g.same_slots;
    kept = entry;
  }
    where
      entry :
          (j other : ℕ)
          → other ≢ 0
          → get_elem? (id ∷ ids) j ≡ some other
          → get_elem? (id ∷ r.0) j ≡ some other
      entry zero other nz e = e
      entry (suc j) other nz e = g.kept j other nz e

  filled_slot :
      (counter i id : ℕ) (ids : List ℕ) (r : List ℕ × ℕ)
      → counter < number
      → (id == 0) ≡ true
      → Grows (counter + 1) ids r
      → Grows counter (id ∷ ids) (tid i ∷ r.0, r.1)
  unfolding count_live
  filled_slot counter i id ids r lt z g = record {
    counted = count (live i) g.counted;
    at_most = λ h. g.at_most (omega arith);
    same_slots = ap suc g.same_slots;
    kept = entry;
  }
    where
      count :
          tid i ≢ 0
          → r.1 + count_live ids ≡ counter + 1 + count_live r.0
          → r.1 + ((if id == 0 then 0 else 1) + count_live ids)
            ≡ counter + ((if tid i == 0 then 0 else 1) + count_live r.0)
      count nz h = ground arith

      free : id ≡ 0
      free = ground arith

      held : (other : ℕ) → some id ≡ some other → id ≡ other
      held other e = cc

      entry :
          (j other : ℕ)
          → other ≢ 0
          → get_elem? (id ∷ ids) j ≡ some other
          → get_elem? (tid i ∷ r.0) j ≡ some other
      entry zero other nz e = absurd (nz (sym (held other e) ∙ free))
      entry (suc j) other nz e = g.kept j other nz e

  grow-Grows :
      (live_num max_num : ℕ) (ids : List ℕ) (i counter : ℕ)
      → Grows counter ids (grow tid live_num max_num i counter ids)
  unfolding grow
  grow-Grows live_num max_num [] i counter = stay counter []
  grow-Grows live_num max_num (id ∷ ids) i counter =
      Grows-if (ltb counter number && ltb live_num max_num)
        (λ e.
          Grows-if (id == 0)
            (λ z.
              filled_slot counter i id ids _ (first e) z
                (grow-Grows live_num max_num ids (i + 1) (counter + 1)))
            (λ nz. kept_slot counter id ids _ (grow-Grows live_num max_num ids (i + 1) counter)))
        (λ e. stay counter (id ∷ ids))
    where
      first : (ltb counter number && ltb live_num max_num) ≡ true → counter < number
      first e = ground arith

-- A pool that has grown: as many threads are live as slots were filled, two at most, in the slots
-- that were free, and every thread that had a slot has it still.
pub record Grown (pool pool' : ThreadPool) : Type 0 where
  pub counted :
      pool'.live_num + count_live pool.thread_ids ≡ pool.live_num + count_live pool'.thread_ids
  pub at_most : pool'.live_num ≤ pool.live_num + number
  pub same_slots : length pool'.thread_ids ≡ length pool.thread_ids
  pub kept :
      (j id : ℕ)
      → id ≢ 0
      → get_elem? pool.thread_ids j ≡ some id
      → get_elem? pool'.thread_ids j ≡ some id

-- The manager, with whatever numbers it has read before, and if `pthread_create` never gives 0 as a
-- thread's number, grows the pool by two threads at most, each in a slot that was free; the number of
-- live threads rises by the slots that it has filled, and if every live thread had a slot, there are
-- no more live threads than slots afterwards.
pub manager_grow-Grown :
    (tid : ℕ → ℕ) (queue_size live_num : ℕ) (pool : ThreadPool)
    → ((i : ℕ) → tid i ≢ 0)
    → pool.live_num ≤ count_live pool.thread_ids
    → Grown pool (manager_grow tid queue_size live_num pool)
      × ((manager_grow tid queue_size live_num pool).live_num ≤ length pool.thread_ids)
unfolding manager_grow
manager_grow-Grown tid queue_size live_num pool live slots =
    by_cases (leb 1 queue_size && ltb live_num pool.max_num)
  where
    g : Grows 0 pool.thread_ids (grow tid live_num pool.max_num 0 0 pool.thread_ids)
    g = grow-Grows tid live live_num pool.max_num pool.thread_ids 0 0

    more : ThreadPool
    more = record pool {
      thread_ids = (grow tid live_num pool.max_num 0 0 pool.thread_ids).0;
      live_num = pool.live_num + (grow tid live_num pool.max_num 0 0 pool.thread_ids).1;
    }

    by_cases :
        (b : Bool)
        → Grown pool (if b then more else pool)
          × ((if b then more else pool).live_num ≤ length pool.thread_ids)
    by_cases true = (
      record {
        counted = omega (arith, g.counted);
        at_most = omega (arith, g.at_most (omega arith));
        same_slots = g.same_slots;
        kept = g.kept;
      },
      omega (
        arith,
        g.counted,
        count_live-le (grow tid live_num pool.max_num 0 0 pool.thread_ids).0,
        g.same_slots,
        slots,
      ),
    )
    by_cases false = (
      record { counted = refl; at_most = omega arith; same_slots = refl; kept = λ j id nz e. e },
      omega (arith, count_live-le pool.thread_ids, slots),
    )
