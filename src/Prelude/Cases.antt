-- ===== src/Prelude/Cases.antt =====
-- A property of a computed value, by the test or the option that the value branches on.
use tylium.Prelude.Tests.{if◌then◌else◌}
use mathlib.Core.Path.{◌≡◌, refl}
use mathlib.Core.Bool.{Bool, true, false}
use mathlib.Core.Option.{Option, none, some}

module _ {ℓ κ} {B : Type ℓ} (P : B → Type κ) where
  pub if-keeps :
      (b : Bool) {x y : B} → (b ≡ true → P x) → (b ≡ false → P y) → P (if b then x else y)
  if-keeps true p q = p refl
  if-keeps false p q = q refl

  pub option-keeps {κ'} :
      {A : Type κ'} (o : Option A) {x : B} {f : A → B}
      → (o ≡ none → P x)
      → ((a : A) → o ≡ some a → P (f a))
      → P (elim o [ none ↦ x | some a ↦ f a ])
  option-keeps none p q = p refl
  option-keeps (some a) p q = q a refl
