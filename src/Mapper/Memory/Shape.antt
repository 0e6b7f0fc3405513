-- ===== src/Mapper/Memory/Shape.antt =====
-- The lengths of the arrays: what says that a read or a write is inside.
use my_ceph.Common.{
  ℕ, zero, suc, ◌≤◌, ◌<◌, ◌≡◌, refl, ap, arith, List, [], ◌∷◌, get_elem?, set, length, length-set,
  ltb, none, some, true,
}
use my_ceph.Common.{ℤ, ok}
use my_ceph.Mapper.Memory.{Mem, Pointer, read, write}

abbrev pub shape : Mem → List ℕ
shape [] = []
shape (array ∷ mem) = length array ∷ shape mem

-- The array of a pointer has at least `n` entries.
abbrev pub Room : List ℕ → Pointer → ℕ → Type 0
Room sh none n = ⊥
Room sh (some q) n = (len : ℕ) × (get_elem? sh q ≡ some len) × (n ≤ len)

pub Room-mono : (sh : List ℕ) (p : Pointer) {n m : ℕ} → m ≤ n → Room sh p n → Room sh p m
Room-mono sh none le r = absurd r
Room-mono sh (some q) le (len, e, fits) = (len, e, omega arith)

array_at :
    (mem : Mem) (q : ℕ) {len : ℕ}
    → get_elem? (shape mem) q ≡ some len
    → (array : List ℤ) × (get_elem? mem q ≡ some array) × (length array ≡ len)
array_at [] q h = absurd (cc)
array_at (array ∷ mem) zero h = (array, refl, cc)
array_at (array ∷ mem) (suc q) h = array_at mem q h

entry_at : (xs : List ℤ) (i : ℕ) → i < length xs → (v : ℤ) × (get_elem? xs i ≡ some v)
entry_at [] i h = absurd (omega arith)
entry_at (x ∷ xs) zero h = (x, refl)
entry_at (x ∷ xs) (suc i) h = entry_at xs i (omega arith)

shape-set :
    (mem : Mem) (q : ℕ) {old : List ℤ} (array : List ℤ)
    → get_elem? mem q ≡ some old
    → length array ≡ length old
    → shape (set mem q array) ≡ shape mem
shape-set [] q array h e = refl
shape-set (a ∷ mem) zero array h e = ap (λ (n : ℕ). n ∷ shape mem) (ground arith)
shape-set (a ∷ mem) (suc q) array h e = ap (λ l. length a ∷ l) (shape-set mem q array h e)

pub read_total :
    (mem : Mem) (p : Pointer) (n i : ℕ)
    → Room (shape mem) p n
    → i < n
    → (v : ℤ) × (read mem p i ≡ ok v)
unfolding read
read_total mem none n i r lt = absurd r
read_total mem (some q) n i (len, e, fits) lt =
    let (array, ea, el) = array_at mem q e in
    let (v, ev) = entry_at array i (omega arith) in (v, rw (ea, ev))

pub write_total :
    (mem : Mem) (p : Pointer) (n i : ℕ) (v : ℤ)
    → Room (shape mem) p n
    → i < n
    → (mem' : Mem) × (write mem p i v ≡ ok mem') × (shape mem' ≡ shape mem)
unfolding write
write_total mem none n i v r lt = absurd r
write_total mem (some q) n i v (len, e, fits) lt =
    let (array, ea, el) = array_at mem q e in
    (
      set mem q (set array i v),
      rw (ea, inside array el),
      shape-set mem q (set array i v) ea (length-set array i v),
    )
  where
    inside : (array : List ℤ) → length array ≡ len → ltb i (length array) ≡ true
    inside array el = ground arith
