-- ===== src/Base/Exceptions.antt =====
-- Exceptions of the source as values: a call returns or raises, and the state that it has written
-- stays written.
use mathlib.Core.Path.{◌≡◌, refl}
use mathlib.Core.Bool.{Bool, true, false}
use mathlib.Core.Logic.{◌⊎◌, inl, inr}

-- The classes that the modelled code raises or catches. `audio` is any `AudioCaptureError`, and
-- `other` any exception that no handler of the source names.
pub data Exc : Type 0 where
  value_error type_error runtime_error audio other : Exc

pub data Outcome {ℓ} (A : Type ℓ) : Type ℓ where
  returned : A → Outcome A
  raised : Exc → Outcome A

abbrev pub bind {ℓ κ} : {A : Type ℓ} {B : Type κ} → Outcome A → (A → Outcome B) → Outcome B
bind (returned a) f = f a
bind (raised e) f = raised e

abbrev pub raise_if {ℓ} : {A : Type ℓ} → Bool → Exc → Outcome A → Outcome A
raise_if true e m = raised e
raise_if false e m = m

-- What an `Outcome` that returns has come from.
pub bind-returned :
    {A B : Type 0} (m : Outcome A) (f : A → Outcome B) (b : B)
    → bind m f ≡ returned b
    → (a : A) × (m ≡ returned a) × (f a ≡ returned b)
bind-returned (returned a) f b h = (a, refl, h)
bind-returned (raised e) f b h = cc

pub Outcome-injective : {A : Type 0} {a b : A} → returned a ≡ returned b → a ≡ b
Outcome-injective h = cc

pub raise_if-returned :
    {A : Type 0} (t : Bool) (e : Exc) (m : Outcome A) (a : A)
    → raise_if t e m ≡ returned a
    → m ≡ returned a
raise_if-returned true e m a h = cc
raise_if-returned false e m a h = h

pub Outcome-cases :
    {A : Type 0} (o : Outcome A) → ((a : A) × (o ≡ returned a)) ⊎ ((e : Exc) × (o ≡ raised e))
Outcome-cases (returned a) = inl (a, refl)
Outcome-cases (raised e) = inr (e, refl)

pub bind-returned_right : {A : Type 0} (o : Outcome A) → bind o returned ≡ o
bind-returned_right (returned a) = refl
bind-returned_right (raised e) = refl

pub raised-ne-returned : {A : Type 0} {e : Exc} {a : A} → raised e ≡ returned a → ⊥
raised-ne-returned h = cc
