-- ===== src/Common/Result.antt =====
-- What a run of C code comes to: a value, a read or write outside an array (or through a null
-- pointer), or a loop that has used up the fuel of the model.
use mathlib.Core.Path.{◌≡◌, refl}
use mathlib.Core.Option.{Option, none, some}

pub data Outcome {ℓ} (A : Type ℓ) : Type ℓ where
  ok : A → Outcome A
  fault : Outcome A
  out_of_fuel : Outcome A

infixl 5 ◌>>=◌ ◌>>◌
abbrev pub ◌>>=◌ {ℓ κ} : {A : Type ℓ} {B : Type κ} → Outcome A → (A → Outcome B) → Outcome B
ok a >>= f = f a
fault >>= f = fault
out_of_fuel >>= f = out_of_fuel

abbrev pub ◌>>◌ {ℓ κ} : {A : Type ℓ} {B : Type κ} → Outcome A → Outcome B → Outcome B
m >> k = m >>= λ _. k

abbrev pub from_option {ℓ} : {A : Type ℓ} → Option A → Outcome A
from_option none = fault
from_option (some a) = ok a

-- A run that came to a value came through each of its steps.
pub >>=-eq-ok {ℓ κ} :
    {A : Type ℓ} {B : Type κ} {last : B} (first : Outcome A) (next : A → Outcome B)
    → (first >>= next) ≡ ok last
    → (mid : A) × (first ≡ ok mid) × (next mid ≡ ok last)
>>=-eq-ok fault next h = cc
>>=-eq-ok out_of_fuel next h = cc
>>=-eq-ok (ok mid) next h = (mid, refl, h)

pub from_option-eq-ok {ℓ} : {A : Type ℓ} (o : Option A) {a : A} → from_option o ≡ ok a → o ≡ some a
from_option-eq-ok none h = cc
from_option-eq-ok (some a) h = cc

pub some-inj {ℓ} : {A : Type ℓ} {a b : A} → some a ≡ some b → a ≡ b
some-inj h = cc

pub ok-inj {ℓ} : {A : Type ℓ} {a b : A} → ok a ≡ ok b → a ≡ b
ok-inj h = cc
