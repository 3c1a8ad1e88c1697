-- ===== src/Base/Outcomes.antt =====
-- How a Go call ends: it returns a value, it returns an error, or it panics.
use mathlib.Core.Path.{◌≡◌, refl}
use mathlib.Core.Logic.{◌⊎◌, inl, inr}
use mathlib.Core.Bool.{Bool, true, false}
use mathlib.Core.Option.{Option, none, some}

-- The errors that the program makes itself, and one for each package whose errors it passes on.
-- `fatal` is an exit by `log.Fatal`, and `unfinished` is a loop whose fuel has run out.
pub data Error : Type 0 where
  invalid_recipient not_enough_gas insufficient_balance wallet_balance : Error
  overflow_in_transaction already_in_db already_included root_mismatch : Error
  validator_not_found not_enough_stake not_chosen not_a_validator : Error
  verify_failed timed_out bad_number bad_key : Error
  database codec queue merkle machine curve : Error
  fatal unfinished config : Error

pub data Outcome {ℓ} (A : Type ℓ) : Type ℓ where
  ok : A → Outcome A
  err : Error → Outcome A
  panic : Outcome A

infixl 5 ◌>>=◌ ◌>>◌
abbrev pub ◌>>=◌ {ℓ κ} : {A : Type ℓ} {B : Type κ} → Outcome A → (A → Outcome B) → Outcome B
ok a >>= f = f a
err c >>= f = err c
panic >>= f = panic

abbrev pub ◌>>◌ {ℓ} : {B : Type ℓ} → Outcome (Unit {0}) → Outcome B → Outcome B
m >> k = m >>= λ _. k

-- An early return with an error.
abbrev pub fail_if : Bool → Error → Outcome (Unit {0})
fail_if true c = err c
fail_if false c = ok tt

-- A call whose nil result, or missing entry, the caller turns into an error.
abbrev pub or_fail {ℓ} : {A : Type ℓ} → Option A → Error → Outcome A
or_fail none c = err c
or_fail (some a) c = ok a

-- An index or a pointer that the caller uses unchecked.
abbrev pub or_panic {ℓ} : {A : Type ℓ} → Option A → Outcome A
or_panic none = panic
or_panic (some a) = ok a

-- Inversion: a chain that returns has a first step that returns.
pub >>=-ok {ℓ κ} :
    {A : Type ℓ} {B : Type κ} (m : Outcome A) (f : A → Outcome B) {b : B}
    → (m >>= f) ≡ ok b
    → (a : A) × (m ≡ ok a) × (f a ≡ ok b)
>>=-ok (ok a) f h = (a, refl, h)
>>=-ok (err c) f h = cc
>>=-ok panic f h = cc

pub fail_if-ok : (b : Bool) (c : Error) {u : Unit {0}} → fail_if b c ≡ ok u → b ≡ false
fail_if-ok true c h = cc
fail_if-ok false c h = refl

pub or_fail-ok {ℓ} :
    {A : Type ℓ} (o : Option A) (c : Error) {a : A} → or_fail o c ≡ ok a → o ≡ some a
or_fail-ok none c h = cc
or_fail-ok (some a) c h = cc

-- The cases of a call, with the equation kept.
pub Outcome-cases {ℓ} :
    {A : Type ℓ} (m : Outcome A)
    → ((a : A) × (m ≡ ok a)) ⊎ (((c : Error) × (m ≡ err c)) ⊎ (m ≡ panic))
Outcome-cases (ok a) = inl (a, refl)
Outcome-cases (err c) = inr (inl (c, refl))
Outcome-cases panic = inr (inr refl)
