-- ===== src/Common/Outcome.antt =====
-- What running a piece of C ends in: a value, undefined behaviour, or a loop whose fuel ran out.

use mathlib.Core.Path.{◌≡◌, refl}

pub data Fault : Type 0 where
  null_dereference out_of_bounds indeterminate bad_cast double_free use_after_free : Fault
  division_by_zero signed_overflow locked_mutex exhausted : Fault

pub data Outcome {ℓ} (A : Type ℓ) : Type ℓ where
  ok : A → Outcome A
  fault : Fault → Outcome A

infixl 5 ◌>>=◌
abbrev pub ◌>>=◌ {ℓ μ} : {A : Type ℓ} {B : Type μ} → Outcome A → (A → Outcome B) → Outcome B
ok value >>= rest = rest value
fault x >>= rest = fault x

pub ok-ne-fault {ℓ} : {A : Type ℓ} {a : A} {x : Fault} → ok a ≡ fault x → ⊥
ok-ne-fault p = cc

-- Inversion of a bind that succeeds.
pub >>=-eq-ok {ℓ μ} :
    {A : Type ℓ} {B : Type μ} (first : Outcome A) (rest : A → Outcome B) {out : B}
    → (first >>= rest) ≡ ok out
    → (mid : A) × (first ≡ ok mid) × (rest mid ≡ ok out)
>>=-eq-ok (ok value) rest h = (value, refl, h)
>>=-eq-ok (fault x) rest h = cc

pub ok_injective {ℓ} : {A : Type ℓ} {a b : A} → ok a ≡ ok b → a ≡ b
ok_injective p = cc
