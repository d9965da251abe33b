-- ===== src/Shared/Results.antt =====
-- A value or an error, the pair `(T, error)` of Go.
use Prim.Native.String.{String}
use mathlib.Core.Path.{◌≡◌}
use mathlib.Core.Logic.{◌≢◌}

pub data Result {ℓ} (A : Type ℓ) : Type ℓ where
  ok : A → Result A
  err : String → Result A

pub err≢ok : {A : Type 0} {e : String} {a : A} → err e ≢ ok a
err≢ok h = cc

pub ok_injective : {A : Type 0} {a b : A} → ok a ≡ ok b → a ≡ b
ok_injective h = cc
