-- ===== src/Prelude/Exec.antt =====
-- Exceptions as values, and methods that mutate an object and may raise. What was written before a
-- raise stays written, so the state comes back beside the error too.
use mathlib.Core.Path.{◌≡◌, refl}
use mathlib.Core.Logic.{◌≢◌, ◌⊎◌, inl, inr}
use mathlib.Core.Option.{Option, none, some}

-- The exceptions that the modelled code raises: `decimal_error` is `decimal.InvalidOperation` or
-- `decimal.DivisionByZero`.
pub data Error : Type 0 where
  value_error key_error decimal_error illegal_transition live_capital_locked : Error
  live_trading_denied permission_error market_closed_error connection_error broker_error : Error
  no_route_available : Error

pub data Result {ℓ} (A : Type ℓ) : Type ℓ where
  err : Error → Result A
  ok : A → Result A

abbrev pub or_raise {ℓ} : {A : Type ℓ} → Option A → Error → Result A
or_raise none e = err e
or_raise (some a) e = ok a

infixl 5 ◌>>=◌ ◌>>◌
abbrev pub ◌>>=◌ {ℓ κ} : {A : Type ℓ} {B : Type κ} → Result A → (A → Result B) → Result B
err raised >>= next = err raised
ok value >>= next = next value

abbrev pub ◌>>◌ {ℓ κ} : {A : Type ℓ} {B : Type κ} → Result A → Result B → Result B
m >> k = m >>= λ _. k

-- `try` … `except`
abbrev pub catch {ℓ} : {A : Type ℓ} → Result A → (Error → A) → A
catch (ok a) h = a
catch (err e) h = h e

-- A sequence of calls that returns: its first call returned a value, from which the rest returned.
pub >>=-eq-ok {ℓ κ} :
    {A : Type ℓ} {B : Type κ} (first : Result A) (next : A → Result B) {result : B}
    → (first >>= next) ≡ ok result
    → (value : A) × (first ≡ ok value) × (next value ≡ ok result)
>>=-eq-ok (err raised) next returns = cc
>>=-eq-ok (ok value) next returns = (value, refl, returns)

pub Result-cases {ℓ} :
    {A : Type ℓ} (r : Result A) → ((a : A) × (r ≡ ok a)) ⊎ ((e : Error) × (r ≡ err e))
Result-cases (ok a) = inl (a, refl)
Result-cases (err e) = inr (e, refl)

-- The value of an option that is known to hold one.
unfoldable pub value_of {ℓ} : {A : Type ℓ} (o : Option A) → o ≢ none → A
value_of none h = absurd (h refl)
value_of (some a) h = a

pub value_of-some {ℓ} : {A : Type ℓ} (o : Option A) (h : o ≢ none) → o ≡ some (value_of o h)
unfolding value_of
value_of-some none h = absurd (h refl)
value_of-some (some a) h = refl
