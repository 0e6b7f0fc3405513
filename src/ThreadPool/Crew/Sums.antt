-- ===== src/ThreadPool/Crew/Sums.antt =====
-- Sums over lists of threads and tasks: what each element counts for.
use my_ceph.Common.{
  ◌<◌, length, refl, some-inj, ℕ, zero, suc, ◌+◌, ◌≤◌, ◌≡◌, arith, List, [], ◌∷◌, ◌++◌, get_elem?,
  set, some,
}

unfoldable pub sum_of {ℓ} : {A : Type ℓ} → (A → ℕ) → List A → ℕ
sum_of f [] = 0
sum_of f (x ∷ xs) = f x + sum_of f xs

pub sum_of-append {ℓ} :
    {A : Type ℓ} (f : A → ℕ) (xs ys : List A) → sum_of f (xs ++ ys) ≡ sum_of f xs + sum_of f ys
unfolding sum_of
sum_of-append f [] ys = omega arith
sum_of-append f (x ∷ xs) ys = omega (arith, sum_of-append f xs ys)

-- A change of one element.
pub sum_of-set {ℓ} :
    {A : Type ℓ} (f : A → ℕ) (xs : List A) (i : ℕ) (x y : A)
    → get_elem? xs i ≡ some x
    → sum_of f (set xs i y) + f x ≡ sum_of f xs + f y
unfolding sum_of
sum_of-set f [] i x y h = absurd (cc)
sum_of-set f (z ∷ xs) zero x y h = rw (some-inj h) (omega arith)
sum_of-set f (z ∷ xs) (suc i) x y h = omega (arith, sum_of-set f xs i x y h)

pub sum_of-member {ℓ} :
    {A : Type ℓ} (f : A → ℕ) (xs : List A) (i : ℕ) (x : A)
    → get_elem? xs i ≡ some x
    → f x ≤ sum_of f xs
unfolding sum_of
sum_of-member f [] i x h = absurd (cc)
sum_of-member f (z ∷ xs) zero x h = rw (← some-inj h) (omega arith)
sum_of-member f (z ∷ xs) (suc i) x h = omega (arith, sum_of-member f xs i x h)

pub sum_of-eq {ℓ} :
    {A : Type ℓ} (f g : A → ℕ) (xs : List A)
    → ((i : ℕ) (x : A) → get_elem? xs i ≡ some x → f x ≡ g x)
    → sum_of f xs ≡ sum_of g xs
unfolding sum_of
sum_of-eq f g [] h = refl
sum_of-eq f g (x ∷ xs) h = omega (arith, h 0 x refl, sum_of-eq f g xs (λ i y e. h (suc i) y e))

pub sum_of-zero {ℓ} : {A : Type ℓ} (xs : List A) → sum_of (λ _. 0) xs ≡ 0
unfolding sum_of
sum_of-zero [] = refl
sum_of-zero (x ∷ xs) = omega (arith, sum_of-zero xs)

-- An index at which an element stands.
pub get_elem?-some-lt {ℓ} :
    {A : Type ℓ} (xs : List A) (i : ℕ) (x : A) → get_elem? xs i ≡ some x → i < length xs
get_elem?-some-lt [] i x h = absurd (cc)
get_elem?-some-lt (y ∷ xs) zero x h = omega arith
get_elem?-some-lt (y ∷ xs) (suc i) x h = omega (arith, get_elem?-some-lt xs i x h)
