-- ===== src/Common/Below.antt =====
-- A check of every number of a range, by evaluation.
use Prim.Native.Nat.{ℕ, zero, suc, ◌+◌, ◌-◌, ◌≤◌, ◌<◌}
use mathlib.Core.Path.{◌≡◌, subst}
use mathlib.Core.Bool.{Bool, true, ◌&&◌}
use native.Mathlib.Omega.{arith}

-- `p` holds of the `n` numbers from `base` on.
unfoldable pub all_from : ℕ → ℕ → (ℕ → Bool) → Bool
all_from zero base p = true
all_from (suc n) base p = p base && all_from n (base + 1) p

and_both : (a b : Bool) → (a && b) ≡ true → (a ≡ true) × (b ≡ true)
and_both a b h = ground arith

all_from_at :
    (n base : ℕ) (p : ℕ → Bool) (i : ℕ) → all_from n base p ≡ true → i < n → p (base + i) ≡ true
unfolding all_from
all_from_at zero base p i h lt = absurd (omega arith)
all_from_at (suc n) base p zero h lt =
    subst (λ k. p k ≡ true) (omega arith) (and_both (p base) (all_from n (base + 1) p) h).0
all_from_at (suc n) base p (suc i) h lt =
    subst (λ k. p k ≡ true) (omega arith)
      (all_from_at n (base + 1) p i (and_both (p base) (all_from n (base + 1) p) h).1 (omega arith))

pub all_from_sound :
    (n base : ℕ) (p : ℕ → Bool) (x : ℕ)
    → all_from n base p ≡ true
    → base ≤ x
    → x < base + n
    → p x ≡ true
all_from_sound n base p x h lo hi =
    subst (λ k. p k ≡ true) (omega arith) (all_from_at n base p (x - base) h (omega arith))
