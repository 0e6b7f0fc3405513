-- ===== src/ThreadPool/Crew/Signal.antt =====
-- A signal of a condition leaves the threads as they were, but for one that waited.
use my_ceph.Common.{
  ℕ, ◌≤◌, ◌≡◌, ◌⊎◌, inl, inr, refl, arith, Bool-cases, true, false, List, [], ◌∷◌, get_elem?,
  Option, none, some,
}
use my_ceph.ThreadPool.Crew.{
  Stage, at_head, waits, woken, has_task, runs, exiting, gone, Thread, is_waiting, rouse_first,
  rouse_at,
}
use my_ceph.ThreadPool.Crew.Sums.{sum_of, sum_of-set}
use my_ceph.ThreadPool.Crew.Count.{awake, waiting}

-- What a thread counts for does not tell whether it waits or has been woken.
unfoldable pub IsBlind : (Thread → ℕ) → Type 0
IsBlind f = (id : ℕ) → f (record { id = id; stage = waits }) ≡ f (record { id = id; stage = woken })

pub record IsRoused (ts ts' : List Thread) : Type 0 where
  pub same : (f : Thread → ℕ) → IsBlind f → sum_of f ts' ≡ sum_of f ts
  pub more : sum_of awake ts ≤ sum_of awake ts'
  pub one_up : (1 ≤ sum_of awake ts') ⊎ (sum_of waiting ts ≡ 0)

blind_at :
    (f : Thread → ℕ) (id : ℕ) (stage : Stage)
    → IsBlind f
    → is_waiting stage ≡ true
    → f (record { id = id; stage = woken }) ≡ f (record { id = id; stage = stage })
unfolding is_waiting IsBlind
blind_at f id waits h e = omega (arith, h id)
blind_at f id at_head h e = absurd (cc)
blind_at f id woken h e = absurd (cc)
blind_at f id (has_task task) h e = absurd (cc)
blind_at f id (runs task) h e = absurd (cc)
blind_at f id exiting h e = absurd (cc)
blind_at f id gone h e = absurd (cc)

asleep :
    (id : ℕ) (stage : Stage)
    → is_waiting stage ≡ true
    → awake (record { id = id; stage = stage }) ≡ 0
unfolding is_waiting
asleep id waits e = refl
asleep id at_head e = absurd (cc)
asleep id woken e = absurd (cc)
asleep id (has_task task) e = absurd (cc)
asleep id (runs task) e = absurd (cc)
asleep id exiting e = absurd (cc)
asleep id gone e = absurd (cc)

not_waiting :
    (id : ℕ) (stage : Stage)
    → is_waiting stage ≡ false
    → waiting (record { id = id; stage = stage }) ≡ 0
unfolding is_waiting
not_waiting id waits e = absurd (cc)
not_waiting id at_head e = refl
not_waiting id woken e = refl
not_waiting id (has_task task) e = refl
not_waiting id (runs task) e = refl
not_waiting id exiting e = refl
not_waiting id gone e = refl

rouse_first-IsRoused : (ts : List Thread) → IsRoused ts (rouse_first ts)
unfolding rouse_first sum_of
rouse_first-IsRoused [] = record { same = λ f h. refl; more = omega arith; one_up = inr refl }
rouse_first-IsRoused (t ∷ ts) = elim (Bool-cases (is_waiting t.stage)) [
  | inl w ↦ rw w (record {
    same = λ f h. omega (arith, blind_at f t.id t.stage h w);
    more = omega (arith, asleep t.id t.stage w);
    one_up = inl (omega arith);
  })
  | inr n ↦
      let rest = rouse_first-IsRoused ts in
      rw n (record {
        same = λ f h. omega (arith, rest.same f h);
        more = omega (arith, rest.more);
        one_up = elim rest.one_up [
          | inl up ↦ inl (omega (arith, up))
          | inr none_waits ↦ inr (omega (arith, none_waits, not_waiting t.id t.stage n))
        ];
      })
]

pub rouse_at-IsRoused :
    (k : ℕ) (o : Option Thread) (ts : List Thread)
    → get_elem? ts k ≡ o
    → IsRoused ts (rouse_at k o ts)
unfolding rouse_at
rouse_at-IsRoused k none ts at = rouse_first-IsRoused ts
rouse_at-IsRoused k (some t) ts at = elim (Bool-cases (is_waiting t.stage)) [
  | inl w ↦
      let t' : Thread = record t { stage = woken } in
      let here = asleep t.id t.stage w in
      rw w (record {
        same = λ f h. omega (arith, sum_of-set f ts k t t' at, blind_at f t.id t.stage h w);
        more = omega (arith, sum_of-set awake ts k t t' at, here);
        one_up = inl (omega (arith, sum_of-set awake ts k t t' at, here));
      })
  | inr n ↦ rw n (rouse_first-IsRoused ts)
]
