-- ===== src/Base/Arrays.antt =====
-- C arrays as functions of the index. That an access is in range is part of the invariants.
use Prim.Native.Nat.{ℕ, zero, suc, ◌+◌}
use os_itsc.Base.Tests.{◌==◌, if◌then◌else◌}

-- `a[i] = v`
abbrev pub update {ℓ} : {A : Type ℓ} → (ℕ → A) → ℕ → A → ℕ → A
update a i v = λ j. if j == i then v else a j

-- `for (k = from; k < from + rounds; k++) a = step k a`
unfoldable pub for_range {ℓ} : {A : Type ℓ} (rounds from : ℕ) (step : ℕ → A → A) (a : A) → A
for_range zero from step a = a
for_range (suc rounds) from step a = for_range rounds (from + 1) step (step from a)
