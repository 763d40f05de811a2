-- ===== src/Common/Results.antt =====
-- What a call comes to: a value, a thrown exception, or a fault, which is behaviour that C++ leaves
-- undefined (a null or dangling pointer, an access outside an array or an allocation).
use mathlib.Core.Path.{◌≡◌, refl}
use mathlib.Core.Logic.{◌⊎◌, inl, inr}
use mathlib.Core.Option.{Option, none, some}

-- ExceptionType, and `packet_dump` for the exception of StreamValidCheck, which carries a dump of
-- the stream in place of a type.
pub data ExceptionType : Type 0 where
  null_pointer out_of_range logic_error concurrency file_open_fail : ExceptionType
  invalid_argument overflow underflow bad_alloc sql_error run_time_error : ExceptionType
  packet_dump : ExceptionType

pub data Result {ℓ} (A : Type ℓ) : Type ℓ where
  ok : A → Result A
  throw : ExceptionType → Result A
  fault : Result A

module _ {ℓ κ} {A : Type ℓ} {B : Type κ} where
  infixl 5 ◌>>=◌
  abbrev pub ◌>>=◌ : Result A → (A → Result B) → Result B
  fault >>= next = fault
  throw type >>= next = throw type
  ok value >>= next = next value

  -- A sequence that returns has had its first call return.
  pub first_ok :
      (next : A → Result B) {last : B} (first : Result A)
      → (first >>= next) ≡ ok last
      → (value : A) × (first ≡ ok value) × (next value ≡ ok last)
  first_ok next fault e = cc
  first_ok next (throw type) e = cc
  first_ok next (ok value) e = (value, refl, e)

-- Reading through a pointer or an optional.
abbrev pub deref {ℓ} : {A : Type ℓ} → Option A → Result A
deref none = fault
deref (some a) = ok a

pub Result-cases {ℓ} :
    {A : Type ℓ} (r : Result A)
    → (r ≡ fault) ⊎ (((type : ExceptionType) × (r ≡ throw type)) ⊎ ((a : A) × (r ≡ ok a)))
Result-cases fault = inl refl
Result-cases (throw type) = inr (inl (type, refl))
Result-cases (ok a) = inr (inr (a, refl))
