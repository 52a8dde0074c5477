-- ===== src/Prelude/Faults.antt =====
-- A run of C code: a value, or undefined behaviour. `out_of_fuel` is no behaviour of the program: a
-- loop has been given too few rounds.
use mathlib.Core.Bool.{Bool, true, false}
use mathlib.Core.Logic.{◌⊎◌, inl, inr}
use mathlib.Core.Path.{◌≡◌, refl}
use dpdk_based_nids.Prelude.Tests.{if◌then◌else◌}

pub data Fault : Type 0 where
  use_after_free out_of_bounds uninitialised wrong_type out_of_fuel : Fault

pub data Run {ℓ} (A : Type ℓ) : Type ℓ where
  ok : A → Run A
  fault : Fault → Run A

infixl 5 ◌>>=◌
abbrev pub ◌>>=◌ {ℓ κ} : {A : Type ℓ} {B : Type κ} → Run A → (A → Run B) → Run B
ok a >>= f = f a
fault e >>= f = fault e

-- The run ends without undefined behaviour, in a value with the property.
abbrev pub Ensures {ℓ} : {A : Type ℓ} → (A → Type 0) → Run A → Type 0
Ensures P (ok a) = P a
Ensures P (fault e) = ⊥

pub Ensures-bind {ℓ κ} :
    {A : Type ℓ} {B : Type κ} (P : A → Type 0) (Q : B → Type 0) (m : Run A) (f : A → Run B)
    → Ensures P m
    → ((a : A) → P a → Ensures Q (f a))
    → Ensures Q (m >>= f)
Ensures-bind P Q (ok a) f h k = k a h
Ensures-bind P Q (fault e) f h k = h

-- The same, with the value.
pub Ensures-ok {ℓ} :
    {A : Type ℓ} (P : A → Type 0) (m : Run A) → Ensures P m → (a : A) × (m ≡ ok a) × P a
Ensures-ok P (ok a) h = (a, refl, h)
Ensures-ok P (fault e) h = absurd h

pub Ensures-if {ℓ} :
    {A : Type ℓ} (P : A → Type 0) (b : Bool) (x y : Run A)
    → (b ≡ true → Ensures P x)
    → (b ≡ false → Ensures P y)
    → Ensures P (if b then x else y)
Ensures-if P true x y h k = h refl
Ensures-if P false x y h k = k refl

-- The run ends in a value with the property, or, where `W` holds, in an access out of bounds.
abbrev pub EnsuresUnless {ℓ} : {A : Type ℓ} → Type 0 → (A → Type 0) → Run A → Type 0
EnsuresUnless W P (ok a) = P a
EnsuresUnless W P (fault out_of_bounds) = W
EnsuresUnless W P (fault _) = ⊥

pub EnsuresUnless-bind {ℓ κ} :
    {A : Type ℓ} {B : Type κ} (W : Type 0) (P : A → Type 0) (Q : B → Type 0) (m : Run A)
    (f : A → Run B)
    → EnsuresUnless W P m
    → ((a : A) → P a → EnsuresUnless W Q (f a))
    → EnsuresUnless W Q (m >>= f)
EnsuresUnless-bind W P Q (ok a) f h k = k a h
EnsuresUnless-bind W P Q (fault use_after_free) f h k = h
EnsuresUnless-bind W P Q (fault out_of_bounds) f h k = h
EnsuresUnless-bind W P Q (fault uninitialised) f h k = h
EnsuresUnless-bind W P Q (fault wrong_type) f h k = h
EnsuresUnless-bind W P Q (fault out_of_fuel) f h k = h

pub EnsuresUnless-if {ℓ} :
    {A : Type ℓ} (W : Type 0) (P : A → Type 0) (b : Bool) (x y : Run A)
    → (b ≡ true → EnsuresUnless W P x)
    → (b ≡ false → EnsuresUnless W P y)
    → EnsuresUnless W P (if b then x else y)
EnsuresUnless-if W P true x y h k = h refl
EnsuresUnless-if W P false x y h k = k refl

-- The two ends that such a run can have.
pub EnsuresUnless-cases {ℓ} :
    {A : Type ℓ} (W : Type 0) (P : A → Type 0) (m : Run A)
    → EnsuresUnless W P m
    → ((a : A) × (m ≡ ok a) × P a) ⊎ ((m ≡ fault out_of_bounds) × W)
EnsuresUnless-cases W P (ok a) h = inl (a, refl, h)
EnsuresUnless-cases W P (fault use_after_free) h = absurd h
EnsuresUnless-cases W P (fault out_of_bounds) h = inr (refl, h)
EnsuresUnless-cases W P (fault uninitialised) h = absurd h
EnsuresUnless-cases W P (fault wrong_type) h = absurd h
EnsuresUnless-cases W P (fault out_of_fuel) h = absurd h

pub EnsuresUnless-widen {ℓ} :
    {A : Type ℓ} (V W : Type 0) (P : A → Type 0) (m : Run A)
    → (V → W)
    → EnsuresUnless V P m
    → EnsuresUnless W P m
EnsuresUnless-widen V W P (ok a) f h = h
EnsuresUnless-widen V W P (fault use_after_free) f h = h
EnsuresUnless-widen V W P (fault out_of_bounds) f h = f h
EnsuresUnless-widen V W P (fault uninitialised) f h = h
EnsuresUnless-widen V W P (fault wrong_type) f h = h
EnsuresUnless-widen V W P (fault out_of_fuel) f h = h
