-- ===== src/Base/Faults.antt =====
-- What C leaves undefined is a value here: an `Outcome` is a normal return or a fault.
use mathlib.Core.Option.{Option, none, some}

pub data Fault : Type 0 where
  out_of_bounds null_deref use_after_free double_free uninitialised kernel_bug : Fault

pub data Outcome {ℓ} (A : Type ℓ) : Type ℓ where
  ok : A → Outcome A
  fault : Fault → Outcome A

infixl 5 ◌>>=◌
abbrev pub ◌>>=◌ {ℓ κ} : {A : Type ℓ} {B : Type κ} → Outcome A → (A → Outcome B) → Outcome B
ok a >>= f = f a
fault e >>= f = fault e

-- A read whose failure is the fault `e`.
abbrev pub expect {ℓ} : {A : Type ℓ} → Fault → Option A → Outcome A
expect e none = fault e
expect e (some a) = ok a
