-- ===== src/Common/Results.antt =====
-- Calls that raise: a value, or the exception. A method's state is passed on its own, since what
-- was written before a raise stays written.
use mathlib.Core.Path.{◌≡◌, refl, subst}
use mathlib.Core.Bool.{Bool, true, false}
use mathlib.Core.Logic.{◌⊎◌, inl, inr}
use re_takehome_submission.Common.Tests.{if◌then◌else◌}

pub data Result {ℓ κ} (E : Type ℓ) (A : Type κ) : Type (ℓ ⊔ κ) where
  ok : A → Result E A
  err : E → Result E A

pub Result-cases {ℓ κ} :
    {E : Type ℓ} {A : Type κ} (r : Result E A) → ((a : A) × (r ≡ ok a)) ⊎ ((e : E) × (r ≡ err e))
Result-cases (ok a) = inl (a, refl)
Result-cases (err e) = inr (e, refl)

module _ {ℓ κ} {E : Type ℓ} {A : Type κ} where
  -- The calls that follow, unless the first one raises.
  abbrev pub and_then {ι} : {B : Type ι} → Result E A → (A → Result E B) → Result E B
  and_then (ok a) f = f a
  and_then (err e) f = err e

  -- What holds of the value, if there is one.
  abbrev pub OnOk {ι} : (A → Type ι) → Result E A → Type ι
  OnOk P (ok a) = P a
  OnOk P (err e) = Unit

  pub OnOk-if {ι} :
      (P : A → Type ι) (b : Bool) (x y : Result E A)
      → (b ≡ true → OnOk P x)
      → (b ≡ false → OnOk P y)
      → OnOk P (if b then x else y)
  OnOk-if P true x y f g = f refl
  OnOk-if P false x y f g = g refl

  -- The call does not raise, and this holds of its value.
  abbrev pub Yields : (A → Type 0) → Result E A → Type 0
  Yields P (ok a) = P a
  Yields P (err e) = ⊥

  pub Yields-if :
      (P : A → Type 0) (b : Bool) (x y : Result E A)
      → (b ≡ true → Yields P x)
      → (b ≡ false → Yields P y)
      → Yields P (if b then x else y)
  Yields-if P true x y f g = f refl
  Yields-if P false x y f g = g refl

  pub OnOk-map {ι μ} :
      (P : A → Type ι) (Q : A → Type μ) (r : Result E A)
      → ((a : A) → P a → Q a)
      → OnOk P r
      → OnOk Q r
  OnOk-map P Q (ok a) f h = f a h
  OnOk-map P Q (err e) f h = tt

  pub OnOk-apply {ι} : (P : A → Type ι) (r : Result E A) (a : A) → OnOk P r → r ≡ ok a → P a
  OnOk-apply P (ok b) a h e = let k : b ≡ a = cc in subst P k h
  OnOk-apply P (err x) a h e = absurd (cc)

pub OnOk-and_then {ℓ κ ι μ} :
    {E : Type ℓ} {A : Type κ} {B : Type ι} (P : B → Type μ) (r : Result E A) (f : A → Result E B)
    → ((a : A) → r ≡ ok a → OnOk P (f a))
    → OnOk P (and_then r f)
OnOk-and_then P (ok a) f h = h a refl
OnOk-and_then P (err e) f h = tt

pub Yields-and_then {ℓ κ ι} :
    {E : Type ℓ} {A : Type κ} {B : Type ι} (P : A → Type 0) (Q : B → Type 0) (r : Result E A)
    (f : A → Result E B)
    → Yields P r
    → ((a : A) → P a → Yields Q (f a))
    → Yields Q (and_then r f)
Yields-and_then P Q (ok a) f h k = k a h
Yields-and_then P Q (err e) f h k = absurd h
