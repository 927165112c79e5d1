-- ===== src/Base/Results.antt =====
-- Results that may be missing.
use mathlib.Core.Bool.{Bool, true, false}
use mathlib.Core.Option.{Option, some}
use mathlib.Core.Path.{◌≡◌, refl}
use os_itsc.Base.Tests.{if◌then◌else◌}

-- A step that ends, in a state of which `P` holds.
pub data Returns {A : Type 0} (P : A → Type 0) : Option A → Type 0 where
  returns : {a : A} → P a → Returns P (some a)

-- A result by a test holds if it does on both sides.
pub if_Returns :
    {A : Type 0} {P : A → Type 0} (b : Bool) {x y : Option A}
    → Returns P x
    → Returns P y
    → Returns P (if b then x else y)
if_Returns true p q = p
if_Returns false p q = q

-- The same, where the first side may use that the test holds.
pub if_Returns_known :
    {A : Type 0} {P : A → Type 0} (b : Bool) {x y : Option A}
    → (b ≡ true → Returns P x)
    → Returns P y
    → Returns P (if b then x else y)
if_Returns_known true p q = p refl
if_Returns_known false p q = q
