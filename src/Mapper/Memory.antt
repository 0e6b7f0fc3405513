-- ===== src/Mapper/Memory.antt =====
-- The arrays that `out` and `out2` point to. Both may be the same array.
pub mod Shape
use my_ceph.Common.{
  ℕ, zero, suc, ◌≤◌, ◌<◌, ◌≡◌, ◌≢◌, refl, sym, ap, ◌∙◌, arith, List, [], ◌∷◌, get_elem?, set,
  length, ltb, if◌then◌else◌, Option, none, some, ℕ_discrete, get_elem?-set_self, get_elem?-set_ne,
  length-set, Bool-cases, inl, inr,
}
use my_ceph.Common.{ℤ, Outcome, ok, fault, from_option, ◌>>=◌}

abbrev pub Mem : Type 0
Mem = List (List ℤ)

-- A pointer names an array, or is null.
abbrev pub Pointer : Type 0
Pointer = Option ℕ

-- `p[i]`
unfoldable pub read : Mem → Pointer → ℕ → Outcome ℤ
read mem none i = fault
read mem (some p) i = do array ← from_option (get_elem? mem p); from_option (get_elem? array i)

-- `p[i] = v`
unfoldable pub write : Mem → Pointer → ℕ → ℤ → Outcome Mem
write mem none i v = fault
write mem (some p) i v = do
  array ← from_option (get_elem? mem p)
  if ltb i (length array) then ok (set mem p (set array i v)) else fault

lt_of_get_elem? {ℓ} :
    {A : Type ℓ} (xs : List A) (i : ℕ) {a : A} → get_elem? xs i ≡ some a → i < length xs
lt_of_get_elem? [] i h = cc
lt_of_get_elem? (x ∷ xs) zero h = omega arith
lt_of_get_elem? (x ∷ xs) (suc i) h = omega (arith, lt_of_get_elem? xs i h)

-- What a write that went through has done.
record Wrote (mem : Mem) (q i : ℕ) (v : ℤ) (mem' : Mem) : Type 0 where
  array : List ℤ
  at : get_elem? mem q ≡ some array
  fits : i < length array
  result : mem' ≡ set mem q (set array i v)

write-Wrote :
    (mem : Mem) (q i : ℕ) (v : ℤ) {mem' : Mem}
    → write mem (some q) i v ≡ ok mem'
    → Wrote mem q i v mem'
unfolding write
write-Wrote mem q i v {mem'} h = found (get_elem? mem q) refl h
  where
    found :
        (o : Option (List ℤ))
        → get_elem? mem q ≡ o
        → (from_option o >>= λ array.
            if ltb i (length array) then ok (set mem q (set array i v)) else fault)
          ≡ ok mem'
        → Wrote mem q i v mem'
    found none e k = cc
    found (some array) e k = elim (Bool-cases (ltb i (length array))) [
      | inl t ↦ record { array = array; at = e; fits = ground arith; result = ground arith }
      | inr f ↦ absurd (ground arith)
    ]

-- Below `n` every array reads the same.
pub record Keeps (n : ℕ) (mem mem' : Mem) : Type 0 where
  pub same : (p : Pointer) (i : ℕ) → i < n → read mem' p i ≡ read mem p i

pub Keeps-refl : (n : ℕ) (mem : Mem) → Keeps n mem mem
Keeps-refl n mem = record { same = λ p i h. refl }

pub Keeps-trans : {n : ℕ} {m k l : Mem} → Keeps n m k → Keeps n k l → Keeps n m l
Keeps-trans f g = record { same = λ p i h. g.same p i h ∙ f.same p i h }

pub Keeps-mono : {n m : ℕ} {k l : Mem} → n ≤ m → Keeps m k l → Keeps n k l
Keeps-mono le f = record { same = λ p i h. f.same p i (omega arith) }

read-set_other :
    (mem : Mem) (q : ℕ) (array : List ℤ) (i j : ℕ) (v : ℤ)
    → get_elem? mem q ≡ some array
    → i ≢ j
    → (p : Pointer) → read (set mem q (set array j v)) p i ≡ read mem p i
unfolding read
read-set_other mem q array i j v e ne none = refl
read-set_other mem q array i j v e ne (some p) = elim (ℕ_discrete q p) [
  | yes same ↦ rw (
    ← same,
    e,
    get_elem?-set_self mem q (set array j v) (lt_of_get_elem? mem q e),
    get_elem?-set_ne array {i = j} {j = i} v (λ k. ne (sym k)),
  )
  | no other ↦ rw (get_elem?-set_ne mem {i = q} {j = p} (set array j v) other)
]

pub write-Keeps :
    (n : ℕ) (mem : Mem) (p : Pointer) (j : ℕ) (v : ℤ) {mem' : Mem}
    → write mem p j v ≡ ok mem'
    → n ≤ j
    → Keeps n mem mem'
write-Keeps n mem none j v h le = unfold write in cc
write-Keeps n mem (some q) j v {mem'} h le =
    let w = write-Wrote mem q j v h in
    record {
      same = λ p i lt.
          ap (λ (m : Mem). read m p i) w.result
          ∙ read-set_other mem q w.array i j v w.at (λ e. absurd (omega arith)) p;
    }

pub read-write :
    (mem : Mem) (p : Pointer) (j : ℕ) (v : ℤ) {mem' : Mem}
    → write mem p j v ≡ ok mem'
    → read mem' p j ≡ ok v
unfolding read
read-write mem none j v h = unfold write in cc
read-write mem (some q) j v h =
    let w = write-Wrote mem q j v h in
    rw (
      w.result,
      get_elem?-set_self mem q (set w.array j v) (lt_of_get_elem? mem q w.at),
      get_elem?-set_self w.array j v w.fits,
    )

-- A write changes no entry but its own, in any array.
pub read-write_other :
    (mem : Mem) (q : Pointer) (i j : ℕ) (v : ℤ) {mem' : Mem}
    → write mem q j v ≡ ok mem'
    → i ≢ j
    → (p : Pointer) → read mem' p i ≡ read mem p i
read-write_other mem none i j v h ne p = unfold write in absurd cc
read-write_other mem (some q) i j v h ne p =
    let w = write-Wrote mem q j v h in
    ap (λ (m : Mem). read m p i) w.result ∙ read-set_other mem q w.array i j v w.at ne p
