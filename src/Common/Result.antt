-- ===== src/Common/Result.antt =====
-- Results of code that can fail: a failed ATPDXY_ASSERT, a null pointer that is dereferenced, an
-- exception, or a context that nothing was saved in and that goes on; or code that is not modelled.
use mathlib.Core.Path.{◌≡◌, refl}
use mathlib.Core.Bool.{Bool, true, false}
use mathlib.Core.Option.{Option, none, some}

pub data Fault : Type 0 where
  assertion null_pointer logic_error invalid_argument out_of_fuel invalid_free no_context
        unmodelled :
      Fault

pub data Result {ℓ} (A : Type ℓ) : Type ℓ where
  fail : Fault → Result A
  ok : A → Result A

-- `ATPDXY_ASSERT(x)`: atpdxy/macro.h.
abbrev pub assert : Bool → Result (Unit {0})
assert false = fail Fault.assertion
assert true = ok tt

-- A pointer that is dereferenced.
abbrev pub deref {ℓ} : {A : Type ℓ} → Option A → Result A
deref none = fail Fault.null_pointer
deref (some p) = ok p

infixl 5 ◌>>=◌
abbrev pub ◌>>=◌ {ℓ κ} : {A : Type ℓ} {B : Type κ} (m : Result A) → (A → Result B) → Result B
fail fault >>= next = fail fault
ok value >>= next = next value

infixl 5 ◌>>◌
abbrev pub ◌>>◌ {ℓ} : {A : Type ℓ} (check : Result (Unit {0})) (rest : Result A) → Result A
check >> rest = check >>= λ done. rest

pub ok-injective {ℓ} : {A : Type ℓ} {a b : A} → ◌≡◌ {A = Result A} (ok a) (ok b) → a ≡ b
ok-injective e = cc

-- What a chain that succeeds has gone through.
pub >>=-eq-ok {ℓ κ} :
    {A : Type ℓ} {B : Type κ} (first : Result A) (next : A → Result B) {last : B}
    → (first >>= next) ≡ ok last
    → (middle : A) × (first ≡ ok middle) × (next middle ≡ ok last)
>>=-eq-ok (fail fault) next e = cc
>>=-eq-ok (ok middle) next e = (middle, refl, e)
