-- ===== src/Base/Fallible.antt =====
-- What a call that returns `Option` or panics can come to. `out_of_fuel` is the model's own: a call
-- that has not come to an end, because a loop has used up its fuel or because it waits for ever.
use mathlib.Core.Path.{◌≡◌, refl}
use mathlib.Core.Logic.{◌⊎◌, inl, inr}
use mathlib.Core.Option.{Option, none, some}

pub data Outcome {ℓ} (A : Type ℓ) : Type ℓ where
  done : A → Outcome A
  refused : Outcome A
  panicked : Outcome A
  out_of_fuel : Outcome A

infixl 5 ◌>>=◌
abbrev pub ◌>>=◌ {ℓ κ} : {A : Type ℓ} {B : Type κ} → Outcome A → (A → Outcome B) → Outcome B
done a >>= f = f a
refused >>= f = refused
panicked >>= f = panicked
out_of_fuel >>= f = out_of_fuel

-- A call that never returns.
abbrev pub never {ℓ} : {A : Type ℓ} → Outcome A
never = out_of_fuel

-- Rust's `?` on an `Option`.
abbrev pub question {ℓ} : {A : Type ℓ} → Option A → Outcome A
question none = refused
question (some a) = done a

pub >>=-eq-done {ℓ κ} :
    {A : Type ℓ} {B : Type κ} (m : Outcome A) (f : A → Outcome B) {b : B}
    → (m >>= f) ≡ done b
    → (a : A) × (m ≡ done a) × (f a ≡ done b)
>>=-eq-done (done a) f h = (a, refl, h)
>>=-eq-done refused f h = cc
>>=-eq-done panicked f h = cc
>>=-eq-done out_of_fuel f h = cc

pub >>=-eq-out_of_fuel {ℓ κ} :
    {A : Type ℓ} {B : Type κ} (m : Outcome A) (f : A → Outcome B)
    → (m >>= f) ≡ out_of_fuel
    → (m ≡ out_of_fuel) ⊎ ((a : A) × (m ≡ done a) × (f a ≡ out_of_fuel))
>>=-eq-out_of_fuel (done a) f h = inr (a, refl, h)
>>=-eq-out_of_fuel refused f h = cc
>>=-eq-out_of_fuel panicked f h = cc
>>=-eq-out_of_fuel out_of_fuel f h = inl refl
