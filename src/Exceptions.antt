-- ===== src/Exceptions.antt =====
-- What a C++ function returns or throws. The exceptions are those that the sources name or that
-- `std::promise`, `std::future`, `.at()` and the standard containers throw.
use traact_core.Prelude.{◌≡◌, refl, ap}

pub data Exception : Type 0 where
  invalid_argument out_of_range logic_error runtime_error : Exception
  promise_already_satisfied future_already_retrieved : Exception
  -- No exception: an access that C++ leaves undefined, as `front()` of an empty container.
  undefined_access : Exception

-- `out_of_fuel`: a loop was still running when its fuel was spent.
pub data Result {ℓ} (T : Type ℓ) : Type ℓ where
  throws : Exception → Result T
  out_of_fuel : Result T
  ok : T → Result T

infixl 5 ◌>>=◌
-- What follows runs only if nothing was thrown.
abbrev pub ◌>>=◌ {ℓ κ} : {T : Type ℓ} {U : Type κ} → Result T → (T → Result U) → Result U
out_of_fuel >>= continue = out_of_fuel
throws exception >>= continue = throws exception
ok value >>= continue = continue value

pub >>=-eq-ok {ℓ κ} :
    {T : Type ℓ} {U : Type κ} (m : Result T) (continue : T → Result U) {last : U}
    → (m >>= continue) ≡ ok last
    → (value : T) × (m ≡ ok value) × (continue value ≡ ok last)
>>=-eq-ok (ok value) continue h = (value, refl, h)
>>=-eq-ok (throws exception) continue h = cc
>>=-eq-ok out_of_fuel continue h = cc

pub ok_injective {ℓ} : {T : Type ℓ} {x y : T} → ok x ≡ ok y → x ≡ y
ok_injective {T} {x} e = ap (λ (r : Result T). elim r [ ok z ↦ z | _ ↦ x ]) e
