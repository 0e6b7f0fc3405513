-- ===== src/ThreadPool/Ring.antt =====
-- The ring of tasks, as arithmetic.
use native.Mathlib.Nat.{mod-eq_of_lt, mod-eq-sub-mod}
use my_ceph.Common.{
  ◌≢◌, ℕ, zero, suc, ◌+◌, ◌-◌, ◌%◌, ◌<◌, ltb, ◌≡◌, refl, ap, ◌∙◌, arith, dec_lt, if◌then◌else◌,
  List, [], ◌∷◌, ◌++◌, get_elem?, length, some,
}

-- The index of the `j`th task of a ring whose first stands at `front`.
unfoldable pub slot : ℕ → ℕ → ℕ → ℕ
slot capacity front j = if ltb (front + j) capacity then front + j else front + j - capacity

-- One step on.
pub mod-suc : (c a : ℕ) → a < c → (a + 1) % c ≡ slot c a 1
unfolding slot
mod-suc c a h = elim (dec_lt (a + 1) c) [
  | yes p ↦ mod-eq_of_lt p ∙ small p
  | no p ↦ mod-eq-sub-mod (omega arith) ∙ wrapped p
]
  where
    at_start : ¬ (a + 1 < c) → 0 ≡ (if ltb (a + 1) c then a + 1 else a + 1 - c)
    at_start p = ground arith

    small : a + 1 < c → a + 1 ≡ (if ltb (a + 1) c then a + 1 else a + 1 - c)
    small p = ground arith

    wrapped : ¬ (a + 1 < c) → (a + 1 - c) % c ≡ (if ltb (a + 1) c then a + 1 else a + 1 - c)
    wrapped p =
        ap (λ (n : ℕ). n % c) (omega arith)
        ∙ mod-eq_of_lt {n = 0} {m = c} (omega arith)
        ∙ at_start p

pub get_elem?-++-left {ℓ} :
    {A : Type ℓ} (xs ys : List A) (j : ℕ) → j < length xs → get_elem? (xs ++ ys) j ≡ get_elem? xs j
get_elem?-++-left [] ys j h = absurd (omega arith)
get_elem?-++-left (x ∷ xs) ys zero h = refl
get_elem?-++-left (x ∷ xs) ys (suc j) h = get_elem?-++-left xs ys j (omega arith)

pub get_elem?-++-last {ℓ} :
    {A : Type ℓ} (xs : List A) (y : A) → get_elem? (xs ++ (y ∷ [])) (length xs) ≡ some y
get_elem?-++-last [] y = refl
get_elem?-++-last (x ∷ xs) y = get_elem?-++-last xs y

-- Where a slot is, and that two of them differ.
pub slot-ne : (c f j k : ℕ) → f < c → j < k → k < c → slot c f k ≢ slot c f j
unfolding slot
slot-ne c f j k hf hj hk = ground arith

pub slot-slot : (c f j : ℕ) → f < c → j < c → slot c (slot c f j) 1 ≡ slot c f (j + 1)
unfolding slot
slot-slot c f j hf hj = ground arith

pub slot-front : (c f j : ℕ) → f < c → j < c → slot c (slot c f 1) j ≡ slot c f (suc j)
unfolding slot
slot-front c f j hf hj = ground arith

pub slot-zero : (c f : ℕ) → f < c → slot c f 0 ≡ f
unfolding slot
slot-zero c f hf = ground arith

pub slot-below : (c f j : ℕ) → f < c → j < c → slot c f j < c
unfolding slot
slot-below c f j hf hj = ground arith
